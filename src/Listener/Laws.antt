-- ===== src/Listener/Laws.antt =====
-- What a listener promises, and where it does not keep it.
use uvexec.Base.{
  ℕ, ◌≡◌, refl, subst, inl, inr, Bool, true, some, List, [], ◌∷◌, arith, ltb, Bool-cases, pos, run,
  and_then-eq-some,
}
use uvexec.Uv.{UvError, is_error}
use uvexec.StopOperation.{request, take_out}
use uvexec.Listener.Accept.{started, accept}
use uvexec.Listener
use uvexec.Listener.{
  TcpListener, Answers, Event, begins, connects, requests, stops, set_op, is_positive, construct,
  unbound, bind, register_accept, wait_for_connection, accept_op, start_listening,
  connection_callback, stop_accept, step, negate,
}
use uvexec.Listener.Invariant.{
  IsBound, accept_now, wait_in_list, connect_waiting, stop_listed, request_any, called,
}

module _ (l : TcpListener) (b : IsBound l) where
  begun :
      (u : Answers) (a : ℕ)
      → (l.ops a).waiting ≡ true
      → IsBound (Listener.set_value u a (called l b a))
  begun u a w = elim (Bool-cases (is_positive l.pending)) [
    | inl some_pending ↦ accept_now l b u a w some_pending
    | inr none_pending ↦ wait_in_list l b u a w none_pending
  ]

  connected :
      (status err : UvError) (xs : List ℕ)
      → l.accept_list ≡ xs
      → IsBound (connection_callback status err l)
  unfolding connection_callback
  connected status err xs e = elim (Bool-cases (is_error status)) [
    | inl bad ↦ rw bad b
    | inr good ↦ rw good (idle xs e)
  ]
    where
      idle :
          (ys : List ℕ)
          → l.accept_list ≡ ys
          → IsBound (elim l.accept_list [
            | [] ↦ record l { pending = Listener.increment l.pending }
            | a ∷ rest ↦ record l {
              accept_list = rest;
              ops = set_op l.ops a (accept err (l.ops a));
            }
          ])
      idle [] e' = rw e' (record {
        counted = ground (arith, b.counted);
        matched = inl e';
        distinct = rw e' tt;
        sound = b.sound;
      })
      idle (a ∷ rest) e' = rw e' (connect_waiting l b err a rest e')

  -- Nothing that the loop, libuv or other threads do to a bound listener breaks its order: while PendingConnections
  -- counts a connection the list is empty, each accept is in the list at most once, its receiver is completed at most
  -- once, and never through an empty `Receiver`.
  pub step-IsBound : (e : Event) (t : TcpListener) → step e l ≡ some t → IsBound t
  unfolding step
  step-IsBound (begins u a) t h = elim (Bool-cases (l.ops a).waiting) [
    | inl w ↦
        let same : Listener.set_value u a (called l b a) ≡ t = ground arith in
        subst IsBound same (begun u a w)
    | inr idle ↦ absurd (ground arith)
  ]
  step-IsBound (connects status err) t h =
      let same : connection_callback status err l ≡ t = ground arith in
      subst IsBound same (connected status err l.accept_list refl)
  step-IsBound (requests a) t h =
      (let same : record l {
        ops = set_op l.ops a (record (l.ops a) { stop_op = request (l.ops a).stop_op });
      }
            ≡ t =
          ground arith in
        subst IsBound same (request_any l b a))
  step-IsBound (stops a) t h = elim (Bool-cases (ltb 0 (l.ops a).stop_op.scheduled)) [
    | inl s ↦
        let gone = stop_accept a (record l {
          ops = set_op l.ops a (record (l.ops a) { stop_op = take_out (l.ops a).stop_op });
        }) in
        let same : gone ≡ t = ground arith in subst IsBound same (stop_listed l b a (ground arith))
    | inr none_there ↦ absurd (ground arith)
  ]

pub run-IsBound :
    (es : List Event) (l t : TcpListener) → IsBound l → run step es l ≡ some t → IsBound t
run-IsBound [] l t b h = let same : l ≡ t = ground arith in subst IsBound same b
run-IsBound (e ∷ es) l t b h =
    let (l', first, rest) = and_then-eq-some (step e l) (run step es) h in
    run-IsBound es l' t (step-IsBound l b e l' first) rest

-- A listener whose `Bind` succeeded, with accepts that were not started before.
unfoldable pub bound : ℕ → (ℕ → Bool) → TcpListener
bound backlog requested = (bind (pos 0) (pos 0) (unbound backlog (λ a. started (requested a)))).0

pub bound-IsBound : (backlog : ℕ) (requested : ℕ → Bool) → IsBound (bound backlog requested)
unfolding bound bind unbound started is_error
bound-IsBound backlog requested = record {
  counted = refl;
  matched = inl refl;
  distinct = tt;
  sound = λ a. record {
    once = omega arith;
    defined = refl;
    new = λ w. (refl, refl, refl, refl, refl);
    in_list = λ q. cc;
    held = λ q. cc;
    under_way = λ q. absurd (omega arith);
    scheduled_once = omega arith;
    finished = λ q. absurd (q refl);
    accepted = omega arith;
  };
}
