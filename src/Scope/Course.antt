-- ===== src/Scope/Course.antt =====
-- The whole course of the operations that own a socket, where nothing goes wrong, and where something throws.
use uvexec.Base.{ℕ, ◌≡◌, refl, Bool, true, false, none, some, List, [], ◌∷◌, pos, run}
use uvexec.Scope.{
  Result, value, threw, finished, Operation, new, Answers, finish_body, finish_close, Event, starts,
  inner, body, closes,
}
use uvexec.Scope.ConnectTo
use uvexec.Scope.AcceptFrom
use uvexec.Scope.BindTo

-- An operation that is finished, after a close of its socket or without one.
abbrev pub ended : Bool → ℕ → Bool → Result → Operation
ended opened n closed r = record {
  stage = finished;
  opened = opened;
  closes = n;
  closed = closed;
  completions = r ∷ [];
}

-- Nothing happens to a finished operation.
no_more : (e : Event) → BindTo.step e (ended true 0 false threw) ≡ none
unfolding BindTo.step finish_body finish_close
no_more (starts u) = refl
no_more (inner r u) = refl
no_more (body r) = refl
no_more closes = refl

module _ (u : Answers) (init : u.init ≡ pos 0) (bind : u.bind ≡ pos 0) (n : ℕ) (r : Result) where
  abbrev pub course : List Event
  course = starts u ∷ inner (value n) u ∷ body r ∷ closes ∷ []

  -- Where libuv reports no error and nothing throws, each of the three operations completes its receiver with what
  -- the body completed with, once the socket was closed once.
  pub body_result_forwarded :
      u.throws ≡ false
      → (run ConnectTo.step course new ≡ some (ended true 1 true r))
        × (run AcceptFrom.step course new ≡ some (ended true 1 true r))
        × (run BindTo.step course new ≡ some (ended true 1 true r))
  unfolding ConnectTo.step AcceptFrom.step BindTo.step finish_body finish_close
      ConnectTo.emplace_and_start_initially ConnectTo.complete_inner
      ConnectTo.emplace_and_start_body ConnectTo.emplace_and_start_close
      AcceptFrom.emplace_and_start_initially AcceptFrom.complete_inner
      AcceptFrom.emplace_and_start_body AcceptFrom.emplace_and_start_close BindTo.start
      BindTo.complete_inner BindTo.emplace_and_start_body
  body_result_forwarded quiet = rw (init, bind, quiet) (refl, refl, refl)

  -- Where the function that makes the body throws, connect_to and accept_from close the socket and complete with
  -- the exception; but bind_to completes with it and leaves the socket open, and nothing can close it later.
  pub throwing_body :
      u.throws ≡ true
      → (ok : Answers) → ok.init ≡ pos 0
      → ok.throws ≡ false
      → (run ConnectTo.step (starts ok ∷ inner (value n) u ∷ closes ∷ []) new
          ≡ some (ended true 1 true threw))
        × (run AcceptFrom.step (starts ok ∷ inner (value n) u ∷ closes ∷ []) new
            ≡ some (ended true 1 true threw))
        × (run BindTo.step (starts ok ∷ inner (value n) u ∷ []) new
            ≡ some (ended true 0 false threw))
        × ((e : Event) → BindTo.step e (ended true 0 false threw) ≡ none)
  unfolding ConnectTo.step AcceptFrom.step BindTo.step finish_body finish_close
      ConnectTo.emplace_and_start_initially ConnectTo.complete_inner
      ConnectTo.emplace_and_start_body ConnectTo.emplace_and_start_close
      AcceptFrom.emplace_and_start_initially AcceptFrom.complete_inner
      AcceptFrom.emplace_and_start_body AcceptFrom.emplace_and_start_close BindTo.start
      BindTo.complete_inner BindTo.emplace_and_start_body
  throwing_body loud ok good quiet = (
    rw (good, quiet, loud) refl,
    rw (good, quiet, loud) refl,
    rw (init, bind, loud) refl,
    no_more,
  )
