-- ===== src/EchoUvexec/Server/Laws.antt =====
-- What an EchoConnection echoes, and when it is deleted.
use uvexec.Base.{
  ℕ, suc, ◌≡◌, refl, sym, ap, subst, ◌∙◌, Bool, true, false, not, Option, some, List, [], ◌∷◌, ◌++◌,
  arith, ◌==◌, length, All, run, when-eq-some, and-eq-true, not-eq-true, run-keeps,
}
use uvexec.Request.Buffers.{take, take-length}
use uvexec.EchoUvexec.Server.{
  Pointer, Send, Stage, reading, EchoConnection, echo_connection, read_condition, count_bytes,
  delete_connection, is_unused, write, head_send, Event, bytes_read, read_ended, read_stopped,
  sent_all, send_failed, emptied, step,
}
use uvexec.EchoUv.Server.Invariant.{append_assoc}

-- The bytes that the sends in `Scope` send.
abbrev pub pending : (Pointer → List ℕ) → List Send → List ℕ
pending bytes [] = []
pending bytes (s ∷ ss) = take s.len (bytes s.base) ++ pending bytes ss

pending-write :
    (p : Pointer) (l : List ℕ) (bytes : Pointer → List ℕ) (ss : List Send)
    → is_unused p ss ≡ true
    → pending (write p l bytes) ss ≡ pending bytes ss
pending-write p l bytes [] h = refl
pending-write p l bytes (s ∷ ss) h =
    let t = and-eq-true (not (s.base == p)) (is_unused p ss) h in
    let other : (s.base == p) ≡ false = not-eq-true (s.base == p) t.0 in
    rw other (ap (λ m. take s.len (bytes s.base) ++ m) (pending-write p l bytes ss t.1))

append_nil : (l : List ℕ) → l ++ [] ≡ l
append_nil [] = refl
append_nil (x ∷ l) = ap (λ m. x ∷ m) (append_nil l)

pending-append :
    (bytes : Pointer → List ℕ) (ss : List Send) (s : Send)
    → pending bytes (ss ++ s ∷ []) ≡ pending bytes ss ++ take s.len (bytes s.base)
pending-append bytes [] s = append_nil _
pending-append bytes (t ∷ ss) s =
    ap (λ l. take t.len (bytes t.base) ++ l) (pending-append bytes ss s)
    ∙ sym (append_assoc (take t.len (bytes t.base)) _ _)

is_unused-append :
    (p : Pointer) (ss : List Send) (s : Send)
    → is_unused p ss ≡ true
    → (s.base == p) ≡ false
    → is_unused p (ss ++ s ∷ []) ≡ true
is_unused-append p [] s h e = rw e
is_unused-append p (t ∷ ss) s h e =
    let u = and-eq-true (not (t.base == p)) (is_unused p ss) h in
    rw (u.0) (is_unused-append p ss s u.1 e)

write_self : (p : Pointer) (l : List ℕ) (bytes : Pointer → List ℕ) → write p l bytes p ≡ l
write_self p l bytes = ground arith

record Echoes (c : EchoConnection) : Type 0 where
  reads_elements : c.buf.0 ≡ c.elements
  apart : is_unused c.elements c.sends ≡ true
  echoes : c.sent ++ pending c.bytes c.sends ≡ c.received

abbrev pub SendsAll : Event → Type 0
SendsAll send_failed = ⊥
SendsAll e = Unit

module _ (c : EchoConnection) (g : Echoes c) where
  -- What a step leaves that touches neither the vectors nor the sends.
  with_stage :
      (stage : Stage) (deletes : ℕ) (busy : Bool)
      → Echoes (record c { stage = stage; deletes = deletes; deleted_busy = busy })
  with_stage stage deletes busy = record {
    reads_elements = g.reads_elements;
    apart = g.apart;
    echoes = g.echoes;
  }

  read-Echoes :
      (l : List ℕ) (fresh : Pointer)
      → (c.elements == fresh) ≡ false
      → is_unused fresh c.sends ≡ true
      → Echoes
          (read_condition
            (length l)
            fresh
            (record c { bytes = write c.buf.0 l c.bytes; received = c.received ++ l })).0
  unfolding read_condition
  read-Echoes l fresh other unused =
      let s : Send = record { base = c.elements; len = length l } in
      let now : Pointer → List ℕ = write c.buf.0 l c.bytes in
      let last : take (length l) (now c.elements) ≡ l =
        ap (λ p. take (length l) (write c.buf.0 l c.bytes p)) (sym g.reads_elements)
        ∙ ap (take (length l)) (write_self c.buf.0 l c.bytes)
        ∙ take-length l in
      let before : pending now c.sends ≡ pending c.bytes c.sends =
        pending-write c.buf.0 l c.bytes c.sends
          (ap (λ p. is_unused p c.sends) g.reads_elements ∙ g.apart) in
      record {
        reads_elements = refl;
        apart = is_unused-append fresh c.sends s unused other;
        echoes =
            ap (λ m. c.sent ++ m)
              (pending-append now c.sends s
                ∙ ap (λ m. m ++ take (length l) (now c.elements)) before
                ∙ ap (λ m. pending c.bytes c.sends ++ m) last)
            ∙ sym (append_assoc c.sent (pending c.bytes c.sends) l)
            ∙ ap (λ m. m ++ l) g.echoes;
      }

  sent-Echoes :
      (s : Send) (ss : List Send)
      → c.sends ≡ s ∷ ss
      → Echoes
          (count_bytes s (record c { sends = ss; sent = c.sent ++ take s.len (c.bytes s.base) }))
  unfolding count_bytes
  sent-Echoes s ss e = record {
    reads_elements = g.reads_elements;
    apart =
        (and-eq-true (not (s.base == c.elements)) (is_unused c.elements ss)
          (ap (is_unused c.elements) (sym e) ∙ g.apart)).1;
    echoes =
        append_assoc c.sent (take s.len (c.bytes s.base)) (pending c.bytes ss)
        ∙ ap (λ m. c.sent ++ pending c.bytes m) (sym e)
        ∙ g.echoes;
  }

head_send-eq-some :
    (ss : List Send) (k : Send → List Send → Option EchoConnection) {d : EchoConnection}
    → head_send ss k ≡ some d
    → (s : Send) × (rest : List Send) × (ss ≡ s ∷ rest) × (k s rest ≡ some d)
head_send-eq-some [] k h = absurd (cc)
head_send-eq-some (s ∷ ss) k h = (s, ss, refl, h)

step-Echoes :
    (e : Event) (c d : EchoConnection) → Echoes c → SendsAll e → step e c ≡ some d → Echoes d
unfolding step delete_connection
step-Echoes (bytes_read l fresh) c d g s h =
    let t = when-eq-some _ _ h in
    subst Echoes t.1 (read-Echoes c g l fresh (ground (arith, t.0)) (ground (arith, t.0)))
step-Echoes read_ended c d g s h = subst Echoes (when-eq-some _ _ h).1 (with_stage c g _ _ _)
step-Echoes read_stopped c d g s h = subst Echoes (when-eq-some _ _ h).1 (with_stage c g _ _ _)
step-Echoes sent_all c d g s h =
    let (t, ss, e, h') = head_send-eq-some c.sends _ h in
    subst Echoes (when-eq-some true _ h').1 (sent-Echoes c g t ss e)
step-Echoes send_failed c d g s h = absurd s
step-Echoes emptied c d g s h = subst Echoes (when-eq-some _ _ h).1 (with_stage c g _ _ _)

-- As long as no send fails, what an EchoConnection wrote to the socket, and what the sends in its Scope hold, is what it
-- read from the socket, in its order, although every read goes into the vector that was new at the read before.
pub connection_echoes :
    (elements : Pointer) (bytes : Pointer → List ℕ) (es : List Event) (d : EchoConnection)
    → All SendsAll es
    → run step es (echo_connection elements bytes) ≡ some d
    → d.sent ++ pending d.bytes d.sends ≡ d.received
unfolding echo_connection
connection_echoes elements bytes es d s r =
    (run-keeps step SendsAll Echoes step-Echoes es (echo_connection elements bytes) d
      (record { reads_elements = refl; apart = refl; echoes = refl }) s r).echoes

-- Where the reading is stopped while sends are under way, the EchoConnection is deleted with these in its Scope.
pub stopped_read_deletes_busy :
    (c : EchoConnection) (s : Send) (ss : List Send)
    → c.stage ≡ reading
    → c.sends ≡ s ∷ ss
    → (d : EchoConnection) × (step read_stopped c ≡ some d)
      × (d.deletes ≡ suc c.deletes)
      × (d.deleted_busy ≡ true)
      × (d.sends ≡ s ∷ ss)
unfolding step delete_connection
stopped_read_deletes_busy c s ss e f = (delete_connection c, (rw e), refl, (rw f (ground arith)), f)
