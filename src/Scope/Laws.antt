-- ===== src/Scope/Laws.antt =====
-- What the operations that own a socket promise.
use uvexec.Base.{
  ◌≡◌, refl, inl, inr, true, false, some, List, arith, Bool-cases, pos, eq_ℤ, All, run,
}
use uvexec.Scope.{Result, value, waiting, inner_runs, Operation, new, Answers, Event}
use uvexec.Scope.ConnectTo
use uvexec.Scope.AcceptFrom
use uvexec.Scope.BindTo
use uvexec.Scope.Invariant.{Fits, Fits-IsScoped, IsScoped, IsSane, IsSaneBind, run-Fits}

connect_start-Fits :
    (u : Answers) (op : Operation)
    → u.throws ≡ false
    → op.stage ≡ waiting
    → Fits true waiting op
    → Fits true
        (ConnectTo.emplace_and_start_initially u op).stage
        (ConnectTo.emplace_and_start_initially u op)
unfolding ConnectTo.emplace_and_start_initially
connect_start-Fits u op sane e f = elim (Bool-cases (eq_ℤ u.init (pos 0))) [
  | inl good ↦ rw (good, sane) (ground arith)
  | inr bad ↦ rw bad (ground arith)
]

connect_inner-Fits :
    (r : Result) (u : Answers) (op : Operation)
    → Unit {0}
    → op.stage ≡ inner_runs
    → Fits true inner_runs op
    → Fits true (ConnectTo.complete_inner r u op).stage (ConnectTo.complete_inner r u op)
unfolding ConnectTo.complete_inner ConnectTo.emplace_and_start_body
    ConnectTo.emplace_and_start_close
connect_inner-Fits (value n) u op sane e f = elim (Bool-cases u.throws) [
  | inl bad ↦ rw bad (ground arith)
  | inr good ↦ rw good (ground arith)
]
connect_inner-Fits r u op sane e f = ground arith

accept_start-Fits :
    (u : Answers) (op : Operation)
    → u.throws ≡ false
    → op.stage ≡ waiting
    → Fits true waiting op
    → Fits true
        (AcceptFrom.emplace_and_start_initially u op).stage
        (AcceptFrom.emplace_and_start_initially u op)
unfolding AcceptFrom.emplace_and_start_initially
accept_start-Fits u op sane e f = elim (Bool-cases (eq_ℤ u.init (pos 0))) [
  | inl good ↦ rw (good, sane) (ground arith)
  | inr bad ↦ rw bad (ground arith)
]

accept_inner-Fits :
    (r : Result) (u : Answers) (op : Operation)
    → Unit {0}
    → op.stage ≡ inner_runs
    → Fits true inner_runs op
    → Fits true (AcceptFrom.complete_inner r u op).stage (AcceptFrom.complete_inner r u op)
unfolding AcceptFrom.complete_inner AcceptFrom.emplace_and_start_body
    AcceptFrom.emplace_and_start_close
accept_inner-Fits (value n) u op sane e f = elim (Bool-cases u.throws) [
  | inl bad ↦ rw bad (ground arith)
  | inr good ↦ rw good (ground arith)
]
accept_inner-Fits r u op sane e f = ground arith

bind_start-Fits :
    (u : Answers) (op : Operation)
    → Unit {0}
    → op.stage ≡ waiting
    → Fits false waiting op
    → Fits false (BindTo.start u op).stage (BindTo.start u op)
unfolding BindTo.start
bind_start-Fits u op sane e f = ground arith

bind_inner-Fits :
    (r : Result) (u : Answers) (op : Operation)
    → u.throws ≡ false
    → op.stage ≡ inner_runs
    → Fits false inner_runs op
    → Fits false (BindTo.complete_inner r u op).stage (BindTo.complete_inner r u op)
unfolding BindTo.complete_inner BindTo.emplace_and_start_body
bind_inner-Fits (value n) u op sane e f = elim (Bool-cases (eq_ℤ u.init (pos 0))) [
  | inl good ↦ elim (Bool-cases (eq_ℤ u.bind (pos 0))) [
    | inl bound ↦ rw (good, bound, sane) (ground arith)
    | inr refused ↦ rw (good, refused) (ground arith)
  ]
  | inr bad ↦ rw bad (ground arith)
]
bind_inner-Fits r u op sane e f = ground arith

-- Whatever happens to a started `TConnectToOpState`, if the construction of its inner operation state does not throw:
-- its receiver is completed at most once, its socket is closed at most once, and when the receiver was
-- completed, a socket that was initialised is closed.
pub connect_to-IsScoped :
    (es : List Event) (t : Operation)
    → All IsSane es
    → run ConnectTo.step es new ≡ some t
    → IsScoped t
unfolding ConnectTo.step
connect_to-IsScoped es t sane h = Fits-IsScoped true t.stage t (
    run-Fits true IsSane ConnectTo.emplace_and_start_initially ConnectTo.complete_inner
      connect_start-Fits connect_inner-Fits es new t sane (refl, refl, refl) h)

-- Whatever happens to a started `TAcceptFromOpState`, if the construction of its inner operation state does not throw:
-- its receiver is completed at most once, its socket is closed at most once, and when the receiver was
-- completed, a socket that was initialised is closed.
pub accept_from-IsScoped :
    (es : List Event) (t : Operation)
    → All IsSane es
    → run AcceptFrom.step es new ≡ some t
    → IsScoped t
unfolding AcceptFrom.step
accept_from-IsScoped es t sane h = Fits-IsScoped true t.stage t (
    run-Fits true IsSane AcceptFrom.emplace_and_start_initially AcceptFrom.complete_inner
      accept_start-Fits accept_inner-Fits es new t sane (refl, refl, refl) h)

-- Whatever happens to a started `TBindToOpState`, if the construction of the body's operation state does not throw: its
-- receiver is completed at most once, its socket is closed at most once, and when the receiver was completed, a
-- socket that was initialised is closed.
pub bind_to-IsScoped :
    (es : List Event) (t : Operation)
    → All IsSaneBind es
    → run BindTo.step es new ≡ some t
    → IsScoped t
unfolding BindTo.step
bind_to-IsScoped es t sane h = Fits-IsScoped false t.stage t (
    run-Fits false IsSaneBind BindTo.start BindTo.complete_inner bind_start-Fits bind_inner-Fits es
      new t sane (refl, refl, refl) h)
