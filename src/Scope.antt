-- ===== src/Scope.antt =====
-- The operations that own a socket for as long as another sender, the body, runs: connect_to, accept_from and
-- bind_to. What they share: `Socket`, the alternative that `OpState` holds, and the close that ends them.
pub mod ConnectTo
pub mod AcceptFrom
pub mod BindTo
pub mod Invariant
pub mod Laws
pub mod Course
mod Tests
use uvexec.Base.{ℕ, ◌+◌, Bool, true, false, Option, List, [], ◌∷◌, when}
use uvexec.Uv.{Errc}

-- What the inner sender, the body or the whole operation completes with. `threw` is an exception.
pub data Result : Type 0 where
  value : ℕ → Result
  failed : Errc → Result
  threw : Result
  stopped : Result

-- The alternative of `OpState` that was started last: the inner sender with the operation's receiver, the body under
-- exec::finally, or the close that completes with a result.
pub data Stage : Type 0 where
  waiting : Stage
  inner_runs : Stage
  body_runs : Stage
  closing : Result → Stage
  finished : Stage

pub record Operation : Type 0 where
  pub stage : Stage
  -- `Socket` holds a socket that libuv initialised
  pub opened : Bool
  -- the closes of the socket that were started, and whether the last one is done
  pub closes : ℕ
  pub closed : Bool
  -- what its receiver was completed with, the latest first
  pub completions : List Result

-- The constructor.
abbrev pub new : Operation
new = record { stage = waiting; opened = false; closes = 0; closed = false; completions = [] }

-- What the socket's constructor and its `Bind` answer, and whether the construction of the next operation state
-- throws.
pub record Answers : Type 0 where
  pub init : Errc
  pub bind : Errc
  pub throws : Bool

abbrev pub complete : Result → Operation → Operation
complete r op = record op { stage = finished; completions = r ∷ op.completions }

abbrev pub start_close : Result → Operation → Operation
start_close r op = record op { stage = closing r; closes = op.closes + 1 }

-- The body completes: exec::finally keeps its result and starts the close of the socket.
unfoldable pub finish_body : Result → Operation → Option Operation
finish_body r op = elim op.stage [ body_runs ↦ Option.some (start_close r op) | _ ↦ Option.none ]

-- The socket is closed: the receiver gets the result that was kept.
unfoldable pub finish_close : Operation → Option Operation
finish_close op = elim op.stage [
  | closing r ↦ Option.some (complete r (record op { closed = true }))
  | _ ↦ Option.none
]

abbrev pub is_waiting : Stage → Bool
is_waiting waiting = true
is_waiting _ = false

abbrev pub is_inner : Stage → Bool
is_inner inner_runs = true
is_inner _ = false

pub data Event : Type 0 where
  -- `stdexec::start`
  starts : Answers → Event
  -- the inner sender completes
  inner : Result → Answers → Event
  body : Result → Event
  closes : Event

-- The steps of an operation, by its functions for the start and for the completions of the inner sender.
abbrev pub step :
    (Answers → Operation → Operation)
    → (Result → Answers → Operation → Operation)
    → Event
    → Operation
    → Option Operation
step start complete_inner (starts u) op = when (is_waiting op.stage) (start u op)
step start complete_inner (inner r u) op = when (is_inner op.stage) (complete_inner r u op)
step start complete_inner (body r) op = finish_body r op
step start complete_inner closes op = finish_close op
