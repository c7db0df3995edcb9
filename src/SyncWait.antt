-- ===== src/SyncWait.antt =====
-- TSyncWaitReceiver and UnwrapSyncWaitReceiverState: include/uvexec/execution/sync_wait_receiver.hpp.
pub mod Laws
pub mod Call
mod Tests
use uvexec.Base.{ℕ, ◌+◌, Option, none, some, List}
use uvexec.Uv.{Errc}

-- What the receiver can get as an error: an exception_ptr, what an error_code is made from, anything else.
pub data Error : Type 0 where
  exception : ℕ → Error
  code : Errc → Error
  other : ℕ → Error

-- What std::exception_ptr refers to.
pub data Exception : Type 0 where
  current : ℕ → Exception
  system_error : Errc → Exception
  made_from : ℕ → Exception

unfoldable pub to_exception : Error → Exception
to_exception (exception n) = current n
to_exception (code e) = system_error e
to_exception (other n) = made_from n

-- The variant `TState`: std::monostate, the values, stopped, an exception.
pub data Destination : Type 0 where
  monostate : Destination
  values : List ℕ → Destination
  was_stopped : Destination
  failed : Exception → Destination

pub record Receiver : Type 0 where
  -- `*Destination`
  pub destination : Destination
  -- the calls of `Wakeup`
  pub wakeups : ℕ

abbrev pub new : Receiver
new = record { destination = monostate; wakeups = 0 }

abbrev pub wake : Receiver → Receiver
wake r = record r { wakeups = r.wakeups + 1 }

unfoldable pub set_error : Error → Receiver → Receiver
unfolding to_exception
set_error e r = wake (record r { destination = failed (to_exception e) })

-- Where the construction of the values throws exception `n`, `thrown` is `some n`.
unfoldable pub set_value : List ℕ → Option ℕ → Receiver → Receiver
unfolding set_error
set_value vs none r = wake (record r { destination = values vs })
set_value vs (some n) r = wake (set_error (exception n) r)

unfoldable pub set_stopped : Receiver → Receiver
set_stopped r = wake (record r { destination = was_stopped })

-- What the call of sync_wait comes to.
pub data Outcome : Type 0 where
  raises : Exception → Outcome
  returns_nothing : Outcome
  returns : List ℕ → Outcome
  bad_variant_access : Outcome

unfoldable pub unwrap : Destination → Outcome
unwrap (failed e) = raises e
unwrap was_stopped = returns_nothing
unwrap (values vs) = returns vs
unwrap monostate = bad_variant_access
