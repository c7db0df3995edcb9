-- ===== src/Meta/Tests.antt =====
-- The templates at small lists of types.
use uvexec.Base.{ℕ, zero, suc, ◌≡◌, refl, true, false, none, some, List, [], ◌∷◌, length}
use mathlib.Core.Logic.{◌↔◌}
use uvexec.Meta.{contains, index_of, Callable, fn_parameter_type, Reference}
use uvexec.Meta.Laws.{IsMember, IsFirst, contains_iff}

abbrev types : List ℕ
types = 5 ∷ 7 ∷ 7 ∷ []

contains_iff_example :
    ((contains 7 types ≡ true) ↔ IsMember 7 types)
    × (IsMember 7 types → IsFirst 7 (index_of 7 types) types)
    × (contains 7 types ≡ false → index_of 7 types ≡ length types)
contains_iff_example = contains_iff 7 types

index_first : index_of 7 (5 ∷ 7 ∷ 7 ∷ []) ≡ suc zero
unfolding index_of
index_first = refl

-- A lambda of one parameter, and a volatile function object.
lambda_parameter :
    fn_parameter_type (
      Callable.object (
        record {
          arguments = 3 ∷ [];
          is_const = true;
          is_volatile = false;
          reference = Reference.no_reference;
          is_noexcept = true;
        }
        ∷ []))
    ≡ some 3
unfolding fn_parameter_type
lambda_parameter = refl

volatile_parameter :
    fn_parameter_type (
      Callable.object (
        record {
          arguments = 3 ∷ [];
          is_const = false;
          is_volatile = true;
          reference = Reference.no_reference;
          is_noexcept = false;
        }
        ∷ []))
    ≡ none
unfolding fn_parameter_type
volatile_parameter = refl
