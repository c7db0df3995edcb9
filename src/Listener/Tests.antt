-- ===== src/Listener/Tests.antt =====
-- Runs of a listener, and the laws at them.
use uvexec.Base.{
  ℕ, ◌+◌, ◌≤◌, ◌<◌, ◌≡◌, refl, Bool, false, some, List, [], ◌∷◌, arith, ◌==◌, pos, negsuc, length,
  run, map_state, and_then,
}
use uvexec.Uv.{set_stopped}
use uvexec.Listener
use uvexec.Listener.{
  TcpListener, Answers, Event, begins, connects, requests, stops, construct, step, set_op, bind,
  unbound,
}
use uvexec.Listener.Accept.{started}
use uvexec.Listener.Invariant.{IsBound}
use uvexec.Listener.Laws.{bound}
use uvexec.Listener.Balance.{amount, begun, reported, withdrawn, bound-run-IsBound}
use uvexec.Listener.Stopping.{stopping_accept_loses_connection}
use uvexec.Listener.Early.{seen, connections, early_connections_lost}

abbrev answers : Answers
answers = record { listen = pos 0; accept = pos 0 }

abbrev nobody : ℕ → Bool
nobody a = false

early_connections_lost_example :
    map_state (seen 4) (
      and_then
        (construct (2 + 3) (pos 0) (pos 0) (λ b. started (nobody b)))
        (run step (connections 2 (begins answers 4 ∷ []))))
    ≡ some ([], (4 ∷ []), pos 0)
early_connections_lost_example = early_connections_lost nobody answers 4 2 3 refl

abbrev refusing : Answers
refusing = record { listen = negsuc 97; accept = pos 0 }

-- An accept waits, a connection comes.
abbrev served : List Event
served = begins answers 4 ∷ connects (pos 0) (pos 0) ∷ []

connect_step :
    step (connects (pos 0) (pos 0)) (bound 5 nobody)
    ≡ some (Listener.connection_callback (pos 0) (pos 0) (bound 5 nobody))
unfolding step
connect_step = refl

after : TcpListener
after = Listener.connection_callback (pos 0) (pos 0) (
    Listener.set_value answers 4 (record (bound 5 nobody) {
      ops = Listener.set_op (bound 5 nobody).ops 4 (record (started false) { waiting = false });
    }))

served-run : run step served (bound 5 nobody) ≡ some after
unfolding after step bound bind unbound started
served-run = refl

bound-run-IsBound_example :
    IsBound after
    × (amount after.pending + begun served
        ≡ reported served + length after.accept_list + withdrawn served (bound 5 nobody))
    × (amount after.pending ≤ reported served)
bound-run-IsBound_example = bound-run-IsBound 5 nobody served after served-run

-- Two accepts wait, and the later one, which is next, is asked to stop.
abbrev stopping : List Event
stopping = begins answers 4 ∷ begins answers 5 ∷ requests 5 ∷ []

two_waiting :
    (l : TcpListener) × (run step stopping (bound 3 nobody) ≡ some l)
    × (l.accept_list ≡ 5 ∷ 4 ∷ [])
    × (0 < (l.ops 5).stop_op.scheduled)
unfolding step bound bind unbound started uvexec.StopOperation.request
    uvexec.Listener.Accept.setup_stop uvexec.Listener.Accept.emplace
two_waiting = (_, refl, refl, omega arith)

stopping_accept_loses_connection_example :
    (t : TcpListener) × (run step (connects (pos 0) (pos 0) ∷ stops 5 ∷ []) two_waiting.0 ≡ some t)
    × (t.pending ≡ pos 0)
    × (t.accept_list ≡ 4 ∷ [])
    × ((t.ops 5).completions ≡ set_stopped ∷ [])
    × ((t.ops 5).accepts ≡ (two_waiting.0.ops 5).accepts)
    × ((c : ℕ) → (c == 5) ≡ false → t.ops c ≡ two_waiting.0.ops c)
stopping_accept_loses_connection_example =
    stopping_accept_loses_connection 3 nobody stopping two_waiting.0 5 (4 ∷ []) (pos 0)
      two_waiting.1 two_waiting.2 two_waiting.3
