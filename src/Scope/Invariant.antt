-- ===== src/Scope/Invariant.antt =====
-- The invariant of the operations that own a socket.
use uvexec.Base.{
  ◌≤◌, ◌≡◌, refl, subst, ◌≢◌, ◌⊎◌, Bool, true, false, some, List, [], ◌∷◌, arith, length, All, run,
  and_then-eq-some,
}
use uvexec.Scope
use uvexec.Scope.{
  Result, value, failed, threw, stopped, Stage, waiting, inner_runs, body_runs, closing, finished,
  Operation, new, Answers, complete, start_close, finish_body, finish_close, Event, starts, inner,
  body, closes,
}

-- By stage: whether the socket may be open, whether it was closed, and whether the receiver was completed. `early` says
-- that the socket is open while the inner sender runs.
abbrev pub Fits : Bool → Stage → Operation → Type 0
Fits early waiting op = (op.opened ≡ false) × (op.closes ≡ 0) × (op.completions ≡ [])
Fits early inner_runs op = (op.opened ≡ early) × (op.closes ≡ 0) × (op.completions ≡ [])
Fits early body_runs op = (op.opened ≡ true) × (op.closes ≡ 0) × (op.completions ≡ [])
Fits early (closing r) op = (op.opened ≡ true) × (op.closes ≡ 1) × (op.completions ≡ [])
Fits early finished op =
    (length op.completions ≡ 1)
    × ((op.opened ≡ false) × (op.closes ≡ 0)
        ⊎ (op.opened ≡ true) × (op.closes ≡ 1) × (op.closed ≡ true))

-- The receiver was completed at most once, the socket closed at most once; and once the receiver was completed, a
-- socket that was initialised is closed.
pub record IsScoped (op : Operation) : Type 0 where
  pub completed_once : length op.completions ≤ 1
  pub closed_once : op.closes ≤ 1
  pub no_leak : op.completions ≢ [] → op.opened ≡ true → (op.closes ≡ 1) × (op.closed ≡ true)

pub Fits-IsScoped : (early : Bool) (s : Stage) (op : Operation) → Fits early s op → IsScoped op
Fits-IsScoped early waiting op f = ground arith
Fits-IsScoped early inner_runs op f = ground arith
Fits-IsScoped early body_runs op f = ground arith
Fits-IsScoped early (closing r) op f = ground arith
Fits-IsScoped early finished op f = ground arith

-- The steps that all three operations have.
finish_body-Fits :
    (early : Bool) (r : Result) (op t : Operation)
    → Fits early op.stage op
    → finish_body r op ≡ some t
    → Fits early t.stage t
unfolding finish_body
finish_body-Fits early r op t f h = at_stage op.stage refl
  where
    at_stage : (s : Stage) → op.stage ≡ s → Fits early t.stage t
    at_stage body_runs e =
        let same : start_close r op ≡ t = ground arith in
        subst (λ z. Fits early z.stage z) same (ground (arith, rw e at f))
    at_stage s e = absurd (ground arith)

finish_close-Fits :
    (early : Bool) (op t : Operation)
    → Fits early op.stage op
    → finish_close op ≡ some t
    → Fits early t.stage t
unfolding finish_close
finish_close-Fits early op t f h = at_stage op.stage refl
  where
    at_stage : (s : Stage) → op.stage ≡ s → Fits early t.stage t
    at_stage (closing r) e =
        let same : complete r (record op { closed = true }) ≡ t = ground arith in
        subst (λ z. Fits early z.stage z) same (ground (arith, rw e at f))
    at_stage s e = absurd (ground arith)

-- The construction of the inner operation state does not throw, for connect_to and accept_from.
abbrev pub IsSane : Event → Type 0
IsSane (starts u) = u.throws ≡ false
IsSane _ = Unit

-- The construction of the body's operation state does not throw, for bind_to.
abbrev pub IsSaneBind : Event → Type 0
IsSaneBind (inner r u) = u.throws ≡ false
IsSaneBind _ = Unit

module _ (early : Bool) (Sane : Event → Type 0) (start : Answers → Operation → Operation)
    (complete_inner : Result → Answers → Operation → Operation)
    (start-Fits : (u : Answers) (op : Operation)
      → Sane (starts u)
      → op.stage ≡ waiting
      → Fits early waiting op
      → Fits early (start u op).stage (start u op))
    (inner-Fits : (r : Result) (u : Answers) (op : Operation)
      → Sane (inner r u)
      → op.stage ≡ inner_runs
      → Fits early inner_runs op
      → Fits early (complete_inner r u op).stage (complete_inner r u op)) where
  step-Fits :
      (e : Event) (op t : Operation)
      → Sane e
      → Fits early op.stage op
      → Scope.step start complete_inner e op ≡ some t
      → Fits early t.stage t
  step-Fits (starts u) op t sane f h = at_stage op.stage refl
    where
      at_stage : (s : Stage) → op.stage ≡ s → Fits early t.stage t
      at_stage waiting e =
          let same : start u op ≡ t = ground arith in
          subst (λ z. Fits early z.stage z) same (start-Fits u op sane e (rw e at f))
      at_stage s e = absurd (ground arith)
  step-Fits (inner r u) op t sane f h = at_stage op.stage refl
    where
      at_stage : (s : Stage) → op.stage ≡ s → Fits early t.stage t
      at_stage inner_runs e =
          let same : complete_inner r u op ≡ t = ground arith in
          subst (λ z. Fits early z.stage z) same (inner-Fits r u op sane e (rw e at f))
      at_stage s e = absurd (ground arith)
  step-Fits (body r) op t sane f h = finish_body-Fits early r op t f h
  step-Fits closes op t sane f h = finish_close-Fits early op t f h

  pub run-Fits :
      (es : List Event) (op t : Operation)
      → All Sane es
      → Fits early op.stage op
      → run (Scope.step start complete_inner) es op ≡ some t
      → Fits early t.stage t
  run-Fits [] op t sane f h =
      let same : op ≡ t = ground arith in subst (λ z. Fits early z.stage z) same f
  run-Fits (e ∷ es) op t (sane, rest) f h =
      let (op', first, later) =
        and_then-eq-some (Scope.step start complete_inner e op)
          (run (Scope.step start complete_inner) es) h in
      run-Fits es op' t rest (step-Fits e op op' sane f first) later
