-- ===== src/ErrorCode/Laws.antt =====
-- Error codes from libuv to std::error_code and back.
use uvexec.Base.{ℕ, ◌≡◌, refl, sym, ap, ◌∙◌, true, false, ℤ, pos, negsuc, is_negative}
use uvexec.Uv.{UvError, Errc, is_error, to_errc}
use uvexec.ErrorCode.{ErrorCode, make_error_code, message, is_set}
use uvexec.ErrorCode.Names.{Enumerator, Constant, constant, name_of, name_of-constant}
use mathlib.Core.Logic.{◌↔◌}

-- An error of libuv keeps its number; what is no error becomes 0.
error_code_value :
    (err : UvError) → is_negative err ≡ true → make_error_code (to_errc err) ≡ make_error_code err
unfolding make_error_code to_errc is_error
error_code_value (pos n) h = absurd (cc)
error_code_value (negsuc n) h = refl

is_set-error : (err : Errc) → is_negative err ≡ true → is_set (make_error_code err) ≡ true
unfolding make_error_code
is_set-error (pos n) h = absurd (cc)
is_set-error (negsuc n) h = refl

success_not_set : (n : ℕ) → is_set (make_error_code (to_errc (pos n))) ≡ false
unfolding make_error_code to_errc is_error
success_not_set n = refl

constant_injective : (a b : Enumerator) → constant a ≡ constant b → a ≡ b
constant_injective a b h = sym (name_of-constant a) ∙ ap name_of h ∙ name_of-constant b

-- The value that the enumeration gives an enumerator.
abbrev pub value_of : (Constant → ℤ) → Enumerator → Errc
value_of number e = number (constant e)

-- Where libuv's error codes are negative and distinct: when libuv reports one of them, the std::error_code is set, and
-- has its number and its message; it equals that of an enumerator exactly if the enumerator stands for that error, and
-- the code of a call that succeeded is not set, whatever number it returned.
pub error_codes_named :
    {Text : Type 0} (strerror : ℤ → Text) (number : Constant → ℤ)
    → ((c : Constant) → is_negative (number c) ≡ true)
    → ((c d : Constant) → number c ≡ number d → c ≡ d)
    → (c : Constant) (e : Enumerator) (n : ℕ)
    → (is_set (make_error_code (to_errc (number c))) ≡ true)
      × (message strerror (make_error_code (to_errc (number c))).value ≡ strerror (number c))
      × ((make_error_code (to_errc (number c)) ≡ make_error_code (value_of number e))
          ↔ (constant e ≡ c))
      × (is_set (make_error_code (to_errc (pos n))) ≡ false)
unfolding message make_error_code
error_codes_named strerror number negative distinct c e n = (
  ap is_set (error_code_value (number c) (negative c)) ∙ is_set-error (number c) (negative c),
  ap (λ (k : ErrorCode). strerror k.value) (error_code_value (number c) (negative c)),
  (
    λ h. distinct (constant e) c (
        sym (ap (λ (k : ErrorCode). k.value) (sym (error_code_value (number c) (negative c)) ∙ h))),
    λ h. error_code_value (number c) (negative c) ∙ ap (λ d. make_error_code (number d)) (sym h),
  ),
  success_not_set n,
)
