-- ===== src/Scope/Tests.antt =====
-- Runs of the operations that own a socket, and the laws at them.
use uvexec.Base.{◌≡◌, refl, true, false, none, some, List, [], ◌∷◌, pos, negsuc, run}
use uvexec.Scope.{
  value, failed, threw, stopped, new, Answers, Event, starts, inner, closes, finish_close,
}
use uvexec.Scope.ConnectTo
use uvexec.Scope.AcceptFrom
use uvexec.Scope.BindTo
use uvexec.Scope.Invariant.{IsScoped}
use uvexec.Scope.Laws.{connect_to-IsScoped}
use uvexec.Scope.Course.{ended, course, body_result_forwarded, throwing_body}

abbrev good : Answers
good = record { init = pos 0; bind = pos 0; throws = false }

abbrev refused : Answers
refused = record { init = pos 0; bind = negsuc 97; throws = false }

abbrev throwing : Answers
throwing = record { init = pos 0; bind = pos 0; throws = true }

-- The connection fails: the socket is closed before the error is passed on.
abbrev failing : List Event
failing = starts good ∷ inner (failed (negsuc 110)) good ∷ closes ∷ []

failing_connect : run ConnectTo.step failing new ≡ some (ended true 1 true (failed (negsuc 110)))
unfolding ConnectTo.step ConnectTo.emplace_and_start_initially ConnectTo.complete_inner
    ConnectTo.emplace_and_start_close finish_close
failing_connect = refl

connect_to-IsScoped_example : IsScoped (ended true 1 true (failed (negsuc 110)))
connect_to-IsScoped_example =
    connect_to-IsScoped failing (ended true 1 true (failed (negsuc 110))) (refl, (tt, (tt, tt)))
      failing_connect

failing_accept : run AcceptFrom.step failing new ≡ some (ended true 1 true (failed (negsuc 110)))
unfolding AcceptFrom.step AcceptFrom.emplace_and_start_initially AcceptFrom.complete_inner
    AcceptFrom.emplace_and_start_close finish_close
failing_accept = refl

-- The address is in use.
abbrev unbound : List Event
unbound = starts good ∷ inner (value 0) refused ∷ closes ∷ []

failing_bind : run BindTo.step unbound new ≡ some (ended true 1 true (failed (negsuc 97)))
unfolding BindTo.step BindTo.start BindTo.complete_inner BindTo.emplace_and_start_body finish_close
failing_bind = refl

body_result_forwarded_example :
    (run ConnectTo.step (course good refl refl 0 stopped) new ≡ some (ended true 1 true stopped))
    × (run AcceptFrom.step (course good refl refl 0 stopped) new ≡ some (ended true 1 true stopped))
    × (run BindTo.step (course good refl refl 0 stopped) new ≡ some (ended true 1 true stopped))
body_result_forwarded_example = body_result_forwarded good refl refl 0 stopped refl

throwing_body_example :
    (run ConnectTo.step (starts good ∷ inner (value 0) throwing ∷ closes ∷ []) new
      ≡ some (ended true 1 true threw))
    × (run AcceptFrom.step (starts good ∷ inner (value 0) throwing ∷ closes ∷ []) new
        ≡ some (ended true 1 true threw))
    × (run BindTo.step (starts good ∷ inner (value 0) throwing ∷ []) new
        ≡ some (ended true 0 false threw))
    × ((e : Event) → BindTo.step e (ended true 0 false threw) ≡ none)
throwing_body_example = throwing_body throwing refl refl 0 stopped refl good refl refl
