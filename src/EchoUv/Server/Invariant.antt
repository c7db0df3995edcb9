-- ===== src/EchoUv/Server/Invariant.antt =====
-- What holds of a connection of the server in examples/echo_uv.c as long as libuv reports no error but the end of the
-- input: who owns each block of the heap, and where the bytes are that were read.
use uvexec.Base.{
  ℕ, ◌+◌, ◌≤◌, ◌≡◌, refl, sym, ap, ◌∙◌, ◌⊎◌, true, false, Option, none, some, List, [], ◌∷◌, ◌++◌,
  arith, if◌then◌else◌, ℤ, pos, negsuc, is_negative, eq_ℤ,
}
use uvexec.Request.Buffers.{take}
use uvexec.EchoUv.Heap.{Pointer, Heap, same, count, store}
use uvexec.EchoUv.Server.{Write, Connection, Event, data_read, read_failed, write_done, is_empty}

abbrev pub write_blocks : List Write → List Pointer
write_blocks [] = []
write_blocks (w ∷ ws) = w.req ∷ w.req_data ∷ w.base ∷ write_blocks ws

abbrev pub shutdown_blocks : Pointer → Option Pointer → ℕ
shutdown_blocks p none = 0
shutdown_blocks p (some q) = same p q

-- The blocks that the connection has a pointer to, with the shared buffer.
abbrev pub owned : Pointer → Connection → ℕ
owned p c =
    same p c.read_buffer
    + (if c.closed then 0 else same p c.client + same p c.server_data)
    + shutdown_blocks p c.shutdown
    + count p (write_blocks c.writes)

-- The bytes that the writes in flight write, as the buffers are now.
abbrev pub pending : (bytes : Pointer → List ℕ) → List Write → List ℕ
pending bytes [] = []
pending bytes (w ∷ ws) = take w.len (bytes w.base) ++ pending bytes ws

-- Before uv_close, and after it.
abbrev pub Phase : Connection → Type 0
Phase c =
    ((c.closes ≡ 0) × (c.closed ≡ false))
    ⊎ ((c.closes ≡ 1) × (c.reading ≡ false) × (c.writes ≡ []) × (c.shutdown ≡ none))

pub record IsGood (c : Connection) : Type 0 where
  pub balanced : (p : Pointer) → count p c.heap.blocks ≡ owned p c
  pub once : (p : Pointer) → count p c.heap.blocks ≤ 1
  pub no_bad : c.heap.bad_frees ≡ 0
  pub phase : Phase c
  pub stopped : c.reading ≡ true → c.shutdown ≡ none
  pub echoes : c.sent ++ pending c.heap.bytes c.writes ≡ c.received

abbrev pub IsSane : (eof : ℤ) → Event → Type 0
IsSane eof (data_read l u) = is_negative u.result ≡ false
IsSane eof (read_failed nread u) = (nread ≡ eof) × (is_negative u.result ≡ false)
IsSane eof (write_done status) = is_negative status ≡ false
IsSane eof _ = Unit

pub write_blocks-append :
    (p : Pointer) (ws : List Write) (w : Write)
    → count p (write_blocks (ws ++ w ∷ []))
      ≡ count p (write_blocks ws) + same p w.req + same p w.req_data + same p w.base
unfolding count
write_blocks-append p [] w = omega arith
write_blocks-append p (v ∷ ws) w = omega (arith, write_blocks-append p ws w)

pub append_assoc : (a b c : List ℕ) → (a ++ b) ++ c ≡ a ++ (b ++ c)
append_assoc [] b c = refl
append_assoc (x ∷ a) b c = ap (λ l. x ∷ l) (append_assoc a b c)

append_nil : (a : List ℕ) → a ++ [] ≡ a
append_nil [] = refl
append_nil (x ∷ a) = ap (λ l. x ∷ l) (append_nil a)

-- What is stored in a buffer that no write has leaves the writes alone.
pub pending-store :
    (b : Pointer) (l : List ℕ) (h : Heap) (ws : List Write)
    → count b (write_blocks ws) ≡ 0
    → pending (store b l h).bytes ws ≡ pending h.bytes ws
unfolding count
pending-store b l h [] e = refl
pending-store b l h (w ∷ ws) e = ground (arith, pending-store b l h ws (omega arith))

pub pending-append :
    (h : Pointer → List ℕ) (ws : List Write) (w : Write)
    → pending h (ws ++ w ∷ []) ≡ pending h ws ++ take w.len (h w.base)
pending-append h [] w = append_nil _
pending-append h (v ∷ ws) w =
    ap (λ l. take v.len (h v.base) ++ l) (pending-append h ws w)
    ∙ sym (append_assoc (take v.len (h v.base)) _ _)

pub eq_ℤ_refl : (n : ℤ) → eq_ℤ n n ≡ true
eq_ℤ_refl (pos n) = ground arith
eq_ℤ_refl (negsuc n) = ground arith

pub empty_writes : (ws : List Write) → is_empty ws ≡ true → ws ≡ []
empty_writes [] h = refl
empty_writes (w ∷ ws) h = absurd (cc)
