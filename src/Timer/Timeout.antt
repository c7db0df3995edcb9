-- ===== src/Timer/Timeout.antt =====
-- How long a timer is started for.
use uvexec.Base.{ℕ, ◌-◌, ltb, if◌then◌else◌, ℤ, to_size}

-- `enum class ETimerType`
pub data TimerType : Type 0 where
  after at : TimerType

-- `std::max(timeout, 0ms)`, in the senders' constructors.
unfoldable pub clamp : ℤ → ℕ
clamp timeout = to_size timeout

-- uint64_t: `now > Timeout ? 0 : Timeout - now`
unfoldable pub start_timeout : TimerType → ℕ → ℕ → ℕ
start_timeout TimerType.at timeout now = if ltb timeout now then 0 else timeout - now
start_timeout TimerType.after timeout now = timeout
