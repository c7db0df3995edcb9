-- ===== src/Listener/Early.antt =====
-- Connections that come before the first accept.
use uvexec.Base.{
  ℕ, zero, suc, ◌+◌, ◌≡◌, refl, ap, ◌∙◌, inl, inr, Bool, true, false, Option, some, List, [], ◌∷◌,
  arith, ◌==◌, Bool-cases, ℤ, pos, negsuc, run, map_state, and_then,
}
use uvexec.Uv.{UvError, is_error, Signal, set_value, set_error}
use uvexec.StopOperation.{reset}
use uvexec.Listener.Accept.{AcceptOpState, started, accept, error, emplace, setup_stop}
use uvexec.Listener
use uvexec.Listener.{
  TcpListener, Answers, Event, begins, connects, requests, stops, set_op, is_positive, construct,
  error_op, unbound, bind, register_accept, wait_for_connection, accept_op, start_listening,
  connection_callback, stop_accept, step, negate,
}
use uvexec.Listener.Laws.{bound}

-- `k` connections that libuv reports without an error.
abbrev pub connections : ℕ → List Event → List Event
connections zero es = es
connections (suc k) es = connects (pos 0) (pos 0) ∷ connections k es

-- A listener with no accept in its list, at a count of pending connections.
abbrev counting : TcpListener → ℤ → TcpListener
counting l n = record l { accept_list = []; pending = n }

increment-negate : (n : ℕ) → Listener.increment (negate (pos (suc n))) ≡ negate (pos n)
increment-negate zero = refl
increment-negate (suc n) = refl

run-connections_below :
    (l : TcpListener) (k m : ℕ) (es : List Event)
    → run step (connections k es) (counting l (negate (pos (k + m))))
      ≡ run step es (counting l (negate (pos m)))
unfolding step connection_callback is_error
run-connections_below l zero m es = let same : 0 + m ≡ m = omega arith in rw same refl
run-connections_below l (suc k) m es =
    let same : suc k + m ≡ suc (k + m) = omega arith in
    rw (same, increment-negate (k + m)) (run-connections_below l k m es)

run-connections_above :
    (l : TcpListener) (k m : ℕ) (es : List Event)
    → run step (connections k es) (counting l (pos m)) ≡ run step es (counting l (pos (m + k)))
unfolding step connection_callback is_error
run-connections_above l zero m es = let same : m + 0 ≡ m = omega arith in rw same refl
run-connections_above l (suc k) m es =
    let same : m + suc k ≡ (m + 1) + k = omega arith in
    rw same (run-connections_above l k (m + 1) es)

-- What an accept was completed with, the accepts that wait and the pending connections.
abbrev pub seen : ℕ → TcpListener → List (Signal (Unit {0})) × List ℕ × ℤ
seen a t = ((t.ops a).completions, t.accept_list, t.pending)

same_self : (a : ℕ) → (a == a) ≡ true
same_self a = ground arith

module _ (requested : ℕ → Bool) (u : Answers) (a : ℕ) where
  abbrev ops : ℕ → AcceptOpState
  ops b = started (requested b)

  -- A listener that the public constructor made, or `Bind` after the other constructor.
  abbrev constructed : ℕ → Option ℤ → TcpListener
  constructed n b = record { accept_list = []; pending = negate (pos n); backlog = b; ops = ops }

  wait_first :
      (l : TcpListener) (n : ℕ)
      → l.pending ≡ negsuc n
      → u.listen ≡ pos 0
      → wait_for_connection u a l ≡ record l {
        accept_list = a ∷ l.accept_list;
        pending = pos 0;
        backlog = some (pos (n + 1));
      }
  unfolding wait_for_connection start_listening is_error
  wait_first l n e h = rw (e, h) refl

  registered :
      (l : TcpListener) (n : ℕ)
      → l.pending ≡ negate (pos n)
      → u.listen ≡ pos 0
      → seen a (register_accept u a l) ≡ ((l.ops a).completions, (a ∷ l.accept_list), pos 0)
  unfolding register_accept wait_for_connection
  registered l zero e h = rw e refl
  registered l (suc n) e h = rw (wait_first l n e h, e) refl

  waits :
      (l : TcpListener) (n : ℕ)
      → l.pending ≡ negate (pos n)
      → u.listen ≡ pos 0
      → seen a (Listener.set_value u a l) ≡ ((l.ops a).completions, (a ∷ l.accept_list), pos 0)
  unfolding Listener.set_value emplace setup_stop
  waits l n e h = rw (same_self a) (
      let l' = record l { ops = set_op l.ops a (emplace (l.ops a)) } in
      rw (same_self a) at (registered l' n e h))

  alone :
      (n : ℕ) (b : Option ℤ)
      → u.listen ≡ pos 0
      → map_state (seen a) (run step (begins u a ∷ []) (constructed n b))
        ≡ some ([], (a ∷ []), pos 0)
  unfolding step started
  alone n b h =
      let o = started (requested a) in
      let l = record (constructed n b) { ops = set_op ops a (record o { waiting = false }) } in
      let none_yet : (l.ops a).completions ≡ [] = rw (same_self a) refl in
      ap (λ x. some x) (waits l n refl h ∙ ap (λ c. (c, (a ∷ []), pos 0)) none_yet)

  taken :
      (k : ℕ) (b : Option ℤ)
      → u.accept ≡ pos 0
      → map_state (seen a) (run step (begins u a ∷ []) (counting (constructed 0 b) (pos (suc k))))
        ≡ some ((set_value tt ∷ []), [], pos k)
  unfolding step Listener.set_value register_accept accept_op started accept emplace setup_stop
      reset is_error
  taken k b h =
      let some_pending : is_positive (pos (suc k)) ≡ true = ground arith in
      rw (some_pending, same_self a, h) refl

  -- A listener that the public constructor made with a backlog loses up to as many connections as the backlog: when
  -- `k + m` is the backlog and `k` connections came before the first accept, that accept is not completed but waits,
  -- and no connection is pending, provided that `uv_listen` succeeds.
  pub early_connections_lost :
      (k m : ℕ)
      → u.listen ≡ pos 0
      → map_state (seen a) (
          and_then
            (construct (k + m) (pos 0) (pos 0) ops)
            (run step (connections k (begins u a ∷ []))))
        ≡ some ([], (a ∷ []), pos 0)
  unfolding construct start_listening is_error
  early_connections_lost k m h =
      rw
        (run-connections_below (constructed 0 (some (negate (negate (pos (k + m)))))) k m
          (begins u a ∷ []))
        (alone m (some (negate (negate (pos (k + m))))) h)

  -- A listener that was bound keeps early connections: when `k + 1` connections came before the first accept, that
  -- accept is completed at once with a value where `uv_accept` succeeds, and `k` connections stay pending.
  pub early_connections_kept :
      (k n : ℕ)
      → u.accept ≡ pos 0
      → map_state (seen a) (run step (connections (suc k) (begins u a ∷ [])) (bound n requested))
        ≡ some ((set_value tt ∷ []), [], pos k)
  unfolding bound bind unbound start_listening is_error
  early_connections_kept k n h =
      rw
        (run-connections_above (constructed 0 (some (negate (negate (pos n))))) (suc k) 0
          (begins u a ∷ []))
        (let same : 0 + suc k ≡ suc k = omega arith in
          rw same (taken k (some (negate (negate (pos n)))) h))

  abbrev refused : UvError → AcceptOpState
  refused e = setup_stop (error e (emplace (record (started (requested a)) { waiting = false })))

  refused-completions : (e : UvError) → (refused e).completions ≡ set_error e ∷ []
  unfolding setup_stop error emplace started reset
  refused-completions e = refl

  accept-refused : (e err : UvError) → (accept err (refused e)).completions ≡ set_error e ∷ []
  unfolding accept setup_stop error emplace started reset
  accept-refused e err = elim (Bool-cases (requested a)) [ inl q ↦ rw q refl | inr q ↦ rw q refl ]

  refuses :
      (l : TcpListener) (n : ℕ) (e : ℕ)
      → l.pending ≡ negsuc n
      → u.listen ≡ negsuc e
      → Listener.register_accept u a l
        ≡ error_op
            (negsuc e)
            a
            (record l { accept_list = a ∷ l.accept_list; backlog = some (pos (n + 1)) })
  unfolding Listener.register_accept wait_for_connection start_listening is_error
  refuses l n e p h = rw (p, h) refl

  -- Where `uv_listen` fails in the first accept of a constructed listener with a backlog, the accept is completed
  -- with the error but stays in the list; the next connection takes it from there and is neither accepted nor counted.
  pub listen_error_drops_connection :
      (n e : ℕ) (err : UvError)
      → u.listen ≡ negsuc e
      → (map_state
            (seen a)
            (and_then (construct (suc n) (pos 0) (pos 0) ops) (run step (begins u a ∷ [])))
          ≡ some ((set_error u.listen ∷ []), (a ∷ []), negsuc n))
        × (map_state (seen a) (
              and_then
                (construct (suc n) (pos 0) (pos 0) ops)
                (run step (begins u a ∷ connects (pos 0) err ∷ [])))
            ≡ some ((set_error u.listen ∷ []), [], negsuc n))
  unfolding construct step connection_callback Listener.set_value started error_op accept_op
      start_listening is_error
  listen_error_drops_connection n e err h =
      let l : TcpListener = record (constructed (suc n) (some (pos (suc n)))) {
        ops =
            set_op (set_op ops a (record (started (requested a)) { waiting = false })) a
              (emplace (set_op ops a (record (started (requested a)) { waiting = false }) a));
      } in
      rw (refuses l n e refl h, h)
        (
          rw (same_self a, refused-completions (negsuc e)) refl,
          rw (same_self a, accept-refused (negsuc e) err) refl,
        )
