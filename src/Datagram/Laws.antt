-- ===== src/Datagram/Laws.antt =====
-- What the datagram receives do: receive_op_state.hpp.
use uvexec.Base.{
  ℕ, ◌≡◌, refl, sym, ap, subst, ◌∙◌, Bool, true, false, not, ◌&&◌, some, List, [], ◌∷◌, arith, ◌==◌,
  if◌then◌else◌, ℤ, to_size, length, All, run,
}
use uvexec.Uv.{Signal, is_error, set_value, set_error}
use uvexec.Transfer.{Event, begins, arrives, Phase, move, begin, answer}
use uvexec.Transfer
use uvexec.Transfer.Laws.{IsSafe, run-IsSafe, run-CanFinish, phase_of_run}
use uvexec.Stream.ReadSome.{Span}
use uvexec.Datagram.Address.{Address, Datagram}
use uvexec.Datagram.Receive
use uvexec.Datagram.Receive.{ReceiveOpState}
use uvexec.Datagram.ReceiveFrom
use uvexec.Datagram.ReceiveFrom.{ReceiveFromOpState}

every_event : (es : List (Event Datagram)) → All (λ _. Unit {0}) es
every_event [] = tt
every_event (e ∷ es) = (tt, every_event es)

-- Whatever happens to a started `TReceiveOpState`, its receiver is completed at most once, and not
-- while the socket receives; its stop operation is in the loop's list at most once, and only until the
-- completion; and events can follow after which the receiver was completed exactly once.
pub receive-IsSafe :
    (buff : Span) (r : Bool) (es : List (Event Datagram)) (s : ReceiveOpState)
    → run (Receive.step buff) es (Receive.start (Receive.connect r)) ≡ some s
    → IsSafe s.completions s.reading s.stop_op
      × (fs : List (Event Datagram)) × (t : ReceiveOpState) × (run (Receive.step buff) fs s
          ≡ some t)
      × (length t.completions ≡ 1)
unfolding Receive.operation
receive-IsSafe buff r es s h =
    let o = Receive.operation buff in
    let e = rw (Receive.start-connect buff r) at h in
    let (fs, t, sane, reach, once) = run-CanFinish o es r s (every_event es) e in
    (run-IsSafe o es r s (every_event es) e, fs, t, reach, once)

module _ (einval : ℤ) (expected : ℕ) (buff : Span) (ep : Address) where
  -- Where libuv passes NULL for an address only with an error or with nothing, the same holds of a started
  -- `TReceiveFromOpState`: at most one completion, none while the socket receives, the stop operation in the
  -- loop's list at most once and only until the completion, and events can follow after which the
  -- receiver was completed exactly once.
  pub receive_from-IsSafe :
      (r : Bool) (es : List (Event Datagram)) (s : ReceiveFromOpState)
      → All (ReceiveFrom.IsSane einval expected buff ep) es
      → run
          (ReceiveFrom.step einval expected buff ep)
          es
          (ReceiveFrom.start (ReceiveFrom.connect r))
        ≡ some s
      → IsSafe s.completions s.reading s.stop_op
        × (fs : List (Event Datagram)) × (t : ReceiveFromOpState) × (run
              (ReceiveFrom.step einval expected buff ep)
              fs
              s
            ≡ some t)
        × (length t.completions ≡ 1)
  unfolding ReceiveFrom.operation
  receive_from-IsSafe r es s sane h =
      let o = ReceiveFrom.operation einval expected buff ep in
      let e = rw (ReceiveFrom.start-connect einval expected buff ep r) at h in
      let (fs, t, sane', reach, once) = run-CanFinish o es r s sane e in
      (run-IsSafe o es r s sane e, fs, t, reach, once)

  -- What a callback with a sender's address completes a receive with.
  abbrev pub outcome : ℤ → Address → Signal ℕ
  outcome nrd from =
      if is_error nrd
      then set_error nrd
      else if from.family == expected
      then set_value (to_size nrd)
      else set_error einval

  -- What that callback does in state `s`.
  abbrev pub Delivered : ReceiveFromOpState → ℤ → Address → Type 0
  Delivered s nrd from =
      (t : ReceiveFromOpState) × (ReceiveFrom.step einval expected buff ep
          (arrives (record { nrd = nrd; addr = some from })) s
        ≡ some t)
      × (s.stop_op.used ≡ false
          → (t.endpoint
              ≡ (if not (is_error nrd) && (from.family == expected) then from else s.endpoint))
            × (t.completions ≡ outcome nrd from ∷ [])
            × (t.reading ≡ false))
      × (s.stop_op.used ≡ true → t ≡ s)

  -- A callback with an address, in each phase in which the socket receives.
  armed_endpoint :
      (x : Address) (nrd : ℤ) (from : Address)
      → is_error einval ≡ true
      → Delivered (ReceiveFrom.at einval expected buff ep (Phase.armed x)) nrd from
  unfolding ReceiveFrom.at ReceiveFrom.step is_error Transfer.stop_op
  armed_endpoint x nrd from bad =
      let x' = if not (is_error nrd) && (from.family == expected) then from else x in
      (
        ReceiveFrom.at einval expected buff ep (Phase.done x' (outcome nrd from) false),
        ground arith,
        (λ _. (refl, refl, refl)),
        λ used. absurd (cc),
      )

  stopping_endpoint :
      (x : Address) (nrd : ℤ) (from : Address)
      → Delivered (ReceiveFrom.at einval expected buff ep (Phase.stopping x)) nrd from
  unfolding ReceiveFrom.at Transfer.stop_op
  stopping_endpoint x nrd from = (
    ReceiveFrom.at einval expected buff ep (Phase.stopping x),
    ReceiveFrom.arrive_stopping einval expected buff ep x nrd (some from),
    (λ unused. absurd (cc)),
    λ _. refl,
  )

  phase_endpoint :
      (p : Phase Address) (nrd : ℤ) (from : Address)
      → is_error einval ≡ true
      → Transfer.reading p ≡ true
      → Delivered (ReceiveFrom.at einval expected buff ep p) nrd from
  phase_endpoint (Phase.armed x) nrd from bad reading = armed_endpoint x nrd from bad
  phase_endpoint (Phase.stopping x) nrd from bad reading = stopping_endpoint x nrd from
  phase_endpoint p nrd from bad reading = absurd (cc)

  -- Whatever happened to a started `TReceiveFromOpState`, if libuv passes NULL for an address only with an error or with
  -- nothing: a callback with a sender's address, while the socket receives, does nothing where a stop was requested
  -- before. Otherwise it completes the receive, which had not completed, and stops the socket: with the error that libuv
  -- reports, with `UV_EINVAL` if the sender's family is not the endpoint's, and else with the size; only then does the
  -- endpoint get the sender's address, and keeps what it had in the other cases.
  pub receive_from_endpoint :
      (r : Bool) (es : List (Event Datagram)) (s : ReceiveFromOpState) (nrd : ℤ) (from : Address)
      → All (ReceiveFrom.IsSane einval expected buff ep) es
      → is_error einval ≡ true
      → run
          (ReceiveFrom.step einval expected buff ep)
          es
          (ReceiveFrom.start (ReceiveFrom.connect r))
        ≡ some s
      → s.reading ≡ true
      → Delivered s nrd from
  unfolding ReceiveFrom.operation
  receive_from_endpoint r es s nrd from sane bad h reading =
      let o = ReceiveFrom.operation einval expected buff ep in
      let e = rw (ReceiveFrom.start-connect einval expected buff ep r) at h in
      let (p, _, same) = phase_of_run o es r s sane e in
      let receives : Transfer.reading p ≡ true =
        sym (o.reading-at p) ∙ ap o.reading_of same ∙ reading in
      subst (λ (q : ReceiveFromOpState). Delivered q nrd from) same
        (phase_endpoint p nrd from bad receives)
