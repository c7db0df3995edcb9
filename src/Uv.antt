-- ===== src/Uv.antt =====
-- uv_util/errors.cpp: the results of libuv as error codes.
pub mod Handle
use uvexec.Base.{ℤ, pos, is_negative, Bool, if◌then◌else◌}

-- `int`; negative values are errors.
abbrev pub UvError : Type 0
UvError = ℤ

-- `enum class EErrc`, over the same `int`.
abbrev pub Errc : Type 0
Errc = ℤ

unfoldable pub is_error : UvError → Bool
is_error err = is_negative err

unfoldable pub to_errc : UvError → Errc
unfolding is_error
to_errc err = if is_error err then err else pos 0

-- How a receiver is completed.
pub data Signal (A : Type 0) : Type 0 where
  set_value : A → Signal A
  set_error : Errc → Signal A
  set_stopped : Signal A
