-- ===== src/Listener/Stopping.antt =====
-- A connection that comes while the accept at the head of the list is stopped.
use uvexec.Base.{
  ℕ, ◌<◌, ◌≡◌, refl, subst, Bool, true, false, some, List, [], ◌∷◌, arith, ltb, ◌==◌, pos, run,
}
use uvexec.Uv.{UvError, is_error, set_stopped}
use uvexec.StopOperation.{reset, reset_unsafe, take_out}
use uvexec.IntrusiveList.Chain.{has, remove}
use uvexec.Listener.Accept.{AcceptOpState, accept, stop_callback}
use uvexec.Listener.{
  TcpListener, Event, connects, stops, set_op, connection_callback, stop_accept, accept_op, step,
}
use uvexec.Listener.Invariant.{IsBound, IsDistinct}
use uvexec.Listener.Laws.{bound, bound-IsBound, run-IsBound}

remove-absent : (a : ℕ) (xs : List ℕ) → has a xs ≡ false → remove a xs ≡ xs
remove-absent a [] h = refl
remove-absent a (x ∷ xs) h = ground (arith, remove-absent a xs)

same_self : (a : ℕ) → (a == a) ≡ true
same_self a = ground arith

-- An accept that is being stopped ignores a connection.
accept-stopping : (err : UvError) (o : AcceptOpState) → o.stop_op.used ≡ true → accept err o ≡ o
unfolding accept reset
accept-stopping err o used = rw used refl

module _ (l : TcpListener) (b : IsBound l) (a : ℕ) (rest : List ℕ) (err : UvError) where
  -- The listener when the connection came, and when the accept was stopped then.
  abbrev ignored : TcpListener
  ignored = record l { accept_list = rest; ops = set_op l.ops a (accept err (l.ops a)) }

  abbrev ended : TcpListener
  ended = stop_accept a (record ignored {
    ops =
        set_op ignored.ops a
          (record (ignored.ops a) { stop_op = take_out (ignored.ops a).stop_op });
  })

  connect_stopping :
      l.accept_list ≡ a ∷ rest
      → 0 < (l.ops a).stop_op.scheduled
      → run step (connects (pos 0) err ∷ stops a ∷ []) l ≡ some ended
  unfolding step connection_callback is_error accept_op
  connect_stopping e s =
      let same = accept-stopping err (l.ops a) (ground (arith, b.sound a)) in
      let there : ltb 0 (l.ops a).stop_op.scheduled ≡ true = ground arith in
      rw (e, same_self a, same, there) refl

  ignored_everywhere :
      l.accept_list ≡ a ∷ rest
      → 0 < (l.ops a).stop_op.scheduled
      → (ended.accept_list ≡ rest)
        × ((ended.ops a).completions ≡ set_stopped ∷ [])
        × ((ended.ops a).accepts ≡ (l.ops a).accepts)
  unfolding stop_accept stop_callback reset_unsafe
  ignored_everywhere e s =
      let same = accept-stopping err (l.ops a) (ground (arith, b.sound a)) in
      let absent : has a rest ≡ false = (subst IsDistinct e b.distinct).0 in
      (
        remove-absent a rest absent,
        rw (same_self a, same) (ground (arith, b.sound a)),
        rw (same_self a, same) (ground (arith, b.sound a)),
      )

  others_left : (c : ℕ) → (c == a) ≡ false → ended.ops c ≡ l.ops c
  unfolding stop_accept
  others_left c apart = rw apart refl

-- Where a stop was requested of the accept that is next in the list of a bound listener, and the loop has not applied it
-- yet, a connection that comes is lost: that accept is taken out for it and then completes with the stop, `uv_accept` is
-- not called for any accept, the accepts that were behind it stay in the list, and PendingConnections stays 0.
pub stopping_accept_loses_connection :
    (backlog : ℕ) (requested : ℕ → Bool) (es : List Event) (l : TcpListener) (a : ℕ) (rest : List ℕ)
    (err : UvError)
    → run step es (bound backlog requested) ≡ some l
    → l.accept_list ≡ a ∷ rest
    → 0 < (l.ops a).stop_op.scheduled
    → (t : TcpListener) × (run step (connects (pos 0) err ∷ stops a ∷ []) l ≡ some t)
      × (t.pending ≡ pos 0)
      × (t.accept_list ≡ rest)
      × ((t.ops a).completions ≡ set_stopped ∷ [])
      × ((t.ops a).accepts ≡ (l.ops a).accepts)
      × ((c : ℕ) → (c == a) ≡ false → t.ops c ≡ l.ops c)
unfolding stop_accept
stopping_accept_loses_connection backlog requested es l a rest err r e s =
    let b = run-IsBound es (bound backlog requested) l (bound-IsBound backlog requested) r in
    let (out, stopped, none_called) = ignored_everywhere l b a rest err e s in
    (
      ended l b a rest err,
      connect_stopping l b a rest err e s,
      ground (arith, b.matched, e),
      out,
      stopped,
      none_called,
      others_left l b a rest err,
    )
