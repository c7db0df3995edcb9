-- ===== src/OneShot/Laws.antt =====
-- What holds of every timer and signal operation, by its phases.
use uvexec.Base.{
  ℕ, suc, ◌+◌, ◌≤◌, ◌≡◌, refl, sym, ap, ◌∙◌, Bool, true, false, Option, none, some, List, [], ◌∷◌,
  arith, pos, length, All, run, map_state, and_then-eq-some, map_state-eq-some, run-map_state,
}
use uvexec.Uv.{Errc, is_error, Signal, set_value, set_error, set_stopped}
use uvexec.Uv.Handle.{Handle}
use uvexec.StopOperation.{StopOperation}
use uvexec.OneShot.{
  Answers, Event, begins, occurs, requests, stops, closes, Phase, idle, rejected, armed, stopping,
  closing_stopped, closing_done, stopped, done, View, move, begin, IsSane, completions, handle,
  stop_op, OneShot,
}

-- The receiver is completed at most once, the handle closed at most once, and the stop operation is in the
-- loop's list at most once. A value or a stop comes only when the handle is closed, and a stop only when
-- one was requested.
pub record IsSafe (c : List (Signal (Unit {0}))) (h : Handle) (s : StopOperation) : Type 0 where
  pub completed_once : length c ≤ 1
  pub closed_once : h.closes ≤ 1
  pub scheduled_once : s.scheduled ≤ 1
  pub value_closed : c ≡ set_value tt ∷ [] → h.closed ≡ true
  pub stopped_closed : c ≡ set_stopped ∷ [] → (h.closed ≡ true) × (s.requested ≡ true)

phase-IsSafe : (p : Phase) → IsSafe (completions p) (handle p) (stop_op p)
unfolding handle stop_op
phase-IsSafe (idle r) = ground arith
phase-IsSafe (rejected e r) = ground arith
phase-IsSafe (armed a) = ground arith
phase-IsSafe (stopping a l) = ground arith
phase-IsSafe (closing_stopped a) = ground arith
phase-IsSafe (closing_done a r) = ground arith
phase-IsSafe (stopped a) = ground arith
phase-IsSafe (done a r) = ground arith

-- An operation that completed with an error leaves its initialised handle open.
pub record IsLeaking (h : Handle) : Type 0 where
  pub open_handle : h.inited ≡ true
  pub never_closed : h.closes ≡ 0

phase-IsLeaking : (p : Phase) (e : Errc) → completions p ≡ set_error e ∷ [] → IsLeaking (handle p)
unfolding handle
phase-IsLeaking (rejected e r) e' h = ground arith
phase-IsLeaking p e h = absurd (cc)

-- Events of one's own accord that bring an operation to its completion.
abbrev wake : Event
wake = begins (record { init = pos 0; now = 0; start = pos 0 })

remaining : Phase → List Event
remaining (idle true) = wake ∷ stops ∷ closes ∷ []
remaining (idle false) = wake ∷ occurs ∷ closes ∷ []
remaining (armed a) = occurs ∷ closes ∷ []
remaining (stopping a l) = stops ∷ closes ∷ []
remaining (closing_stopped a) = closes ∷ []
remaining (closing_done a r) = closes ∷ []
remaining _ = []

remaining-IsSane : (p : Phase) → All IsSane (remaining p)
unfolding remaining is_error
remaining-IsSane (idle true) = (refl, (tt, (tt, tt)))
remaining-IsSane (idle false) = (refl, (tt, (tt, tt)))
remaining-IsSane (armed a) = (tt, (tt, tt))
remaining-IsSane (stopping a l) = (tt, (tt, tt))
remaining-IsSane (closing_stopped a) = (tt, tt)
remaining-IsSane (closing_done a r) = (tt, tt)
remaining-IsSane p = tt

module _ (argument : Answers → ℕ) where
  last : Phase → Phase
  last (idle true) = stopped (argument (record { init = pos 0; now = 0; start = pos 0 }))
  last (idle false) = done (argument (record { init = pos 0; now = 0; start = pos 0 })) false
  last (armed a) = done a false
  last (stopping a l) = stopped a
  last (closing_stopped a) = stopped a
  last (closing_done a r) = done a r
  last p = p

  run-remaining : (p : Phase) → run (move argument) (remaining p) p ≡ some (last p)
  unfolding remaining move begin is_error last
  run-remaining (idle true) = refl
  run-remaining (idle false) = refl
  run-remaining (armed a) = refl
  run-remaining (stopping a l) = refl
  run-remaining (closing_stopped a) = refl
  run-remaining (closing_done a r) = refl
  run-remaining p = refl

  last-completed : (p : Phase) → length (completions (last p)) ≡ 1
  unfolding last
  last-completed (idle true) = refl
  last-completed (idle false) = refl
  last-completed p = refl

-- How many events, requests to stop aside, can still come.
rank : Phase → ℕ
rank (idle r) = 5
rank (armed a) = 4
rank (stopping a true) = 3
rank (stopping a false) = 2
rank (closing_stopped a) = 1
rank (closing_done a r) = 1
rank _ = 0

-- The events of a run that are not requests to stop.
abbrev pub work : List Event → ℕ
work [] = 0
work (requests ∷ es) = work es
work (_ ∷ es) = suc (work es)

work-cons : (e : Event) (es : List Event) → work (e ∷ es) ≡ work (e ∷ []) + work es
work-cons (begins u) es = omega arith
work-cons e es = omega arith

module _ (argument : Answers → ℕ) where
  move-rank :
      (e : Event) (p q : Phase) → move argument e p ≡ some q → rank q + work (e ∷ []) ≤ rank p
  unfolding move rank begin
  move-rank (begins u) (idle r) q h = ground arith
  move-rank (begins u) p q h = absurd (cc)
  move-rank occurs (armed a) q h = ground arith
  move-rank occurs (stopping a true) q h = ground arith
  move-rank requests (stopping a true) q h = ground arith
  move-rank requests (stopping a false) q h = ground arith
  move-rank stops (stopping a true) q h = ground arith
  move-rank stops (stopping a false) q h = ground arith
  move-rank closes (closing_stopped a) q h = ground arith
  move-rank e p q h = ground arith

  run-rank :
      (es : List Event) (p q : Phase)
      → run (move argument) es p ≡ some q
      → rank q + work es ≤ rank p
  run-rank [] p q h = ground arith
  run-rank (e ∷ es) p q h =
      let (p', first, rest) = and_then-eq-some (move argument e p) (run (move argument) es) h in
      omega (arith, work-cons e es, move-rank e p p' first, run-rank es p' q rest)

module _ (o : OneShot) where
  abbrev Reaches : List Event → Bool → o.State → Type 0
  Reaches es r s = run o.step es (o.at (idle r)) ≡ some s

  -- A run of sane events ends in a phase of the abstract machine.
  phase_of_run :
      (es : List Event) (r : Bool) (s : o.State)
      → All IsSane es
      → Reaches es r s
      → (p : Phase) × (run (move o.argument) es (idle r) ≡ some p) × (o.at p ≡ s)
  phase_of_run es r s sane h =
      map_state-eq-some o.at (run (move o.argument) es (idle r))
        (sym (run-map_state o.step (move o.argument) o.at IsSane o.step-move es (idle r) sane) ∙ h)

  pub run-IsSafe :
      (es : List Event) (r : Bool) (s : o.State)
      → All IsSane es
      → Reaches es r s
      → IsSafe (o.completions_of s) (o.handle_of s) (o.stop_op_of s)
  run-IsSafe es r s sane h =
      let (p, _, e) = phase_of_run es r s sane h in
      rw (← e, o.completions-at p, o.handle-at p, o.stop_op-at p) (phase-IsSafe p)

  pub run-IsLeaking :
      (es : List Event) (r : Bool) (s : o.State) (err : Errc)
      → All IsSane es
      → Reaches es r s
      → o.completions_of s ≡ set_error err ∷ []
      → IsLeaking (o.handle_of s)
  run-IsLeaking es r s err sane h c =
      let (p, _, e) = phase_of_run es r s sane h in
      rw (← e, o.handle-at p)
        (phase-IsLeaking p err (sym (o.completions-at p) ∙ ap o.completions_of e ∙ c))

  -- However the run went, the operation can still be brought to its completion.
  abbrev pub CanFinish : o.State → Type 0
  CanFinish s =
      (fs : List Event) × (t : o.State) × All IsSane fs
      × (run o.step fs s ≡ some t)
      × (length (o.completions_of t) ≡ 1)

  pub run-CanFinish :
      (es : List Event) (r : Bool) (s : o.State) → All IsSane es → Reaches es r s → CanFinish s
  run-CanFinish es r s sane h =
      let (p, _, e) = phase_of_run es r s sane h in
      rw (← e) (
        remaining p,
        o.at (last o.argument p),
        remaining-IsSane p,
        run-map_state o.step (move o.argument) o.at IsSane o.step-move (remaining p) p
              (remaining-IsSane p)
            ∙ ap (map_state o.at) (run-remaining o.argument p),
        rw (o.completions-at (last o.argument p)) (last-completed o.argument p),
      )

  -- Requests to stop aside, no run is longer than five events.
  pub run-bounded :
      (es : List Event) (r : Bool) (s : o.State) → All IsSane es → Reaches es r s → work es ≤ 5
  unfolding rank
  run-bounded es r s sane h =
      let (p, f, _) = phase_of_run es r s sane h in
      omega (arith, run-rank o.argument es (idle r) p f)

abbrev phase_view : Phase → View
phase_view p = (completions p, handle p, stop_op p)

module _ (o : OneShot) where
  abbrev pub view : o.State → View
  view s = (o.completions_of s, o.handle_of s, o.stop_op_of s)

  view-at : (q : Option Phase) → map_state view (map_state o.at q) ≡ map_state phase_view q
  view-at none = refl
  view-at (some p) = rw (o.completions-at p, o.handle-at p, o.stop_op-at p)

  -- Operations that pass the same argument to libuv show the same.
  pub run-view :
      (es : List Event) (r : Bool)
      → All IsSane es
      → map_state view (run o.step es (o.at (idle r)))
        ≡ map_state phase_view (run (move o.argument) es (idle r))
  run-view es r sane =
      rw (run-map_state o.step (move o.argument) o.at IsSane o.step-move es (idle r) sane)
        (view-at (run (move o.argument) es (idle r)))
