-- ===== src/ErrorCode.antt =====
-- include/uvexec/execution/error_code.hpp and src/execution/error_code.cpp: the error codes of libuv by names, and as
-- std::error_code. The numbers of libuv's constants and uv_strerror are parameters.
pub mod Names
pub mod Laws
mod Tests
use uvexec.Base.{Bool, not, ℤ, pos, eq_ℤ}
use uvexec.Uv.{Errc}

-- `std::error_code`, whose category is here one of two: `Category()`, and any other.
pub data Category : Type 0 where
  uv : Category
  other : Category

pub record ErrorCode : Type 0 where
  pub value : ℤ
  pub category : Category

-- `make_error_code`: the code and a reference to the one object of TCategory.
unfoldable pub make_error_code : Errc → ErrorCode
make_error_code e = record { value = e; category = uv }

-- `TCategory::message`, where `strerror` is uv_strerror.
unfoldable pub message : {Text : Type 0} (strerror : ℤ → Text) → ℤ → Text
message strerror ec = strerror ec

-- std::error_code's `operator bool`, as the standard has it.
abbrev pub is_set : ErrorCode → Bool
is_set c = not (eq_ℤ c.value (pos 0))
