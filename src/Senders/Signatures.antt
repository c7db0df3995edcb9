-- ===== src/Senders/Signatures.antt =====
-- include/uvexec/algorithms/completion_signatures.hpp: sets of completion signatures, and what stdexec
-- documents of make_completion_signatures.
use uvexec.Base.{ℕ, ◌≡◌, Bool, true, false, not, ◌&&◌, ◌||◌, List, [], ◌∷◌, ◌==◌}

-- The instances of stdexec::completion_signatures that the code tells apart. The arguments are the numbers
-- of other types.
pub data Signature : Type 0 where
  value_void value_size : Signature
  value_of : ℕ → Signature
  error_errc error_exception : Signature
  error_of : ℕ → Signature
  stopped : Signature

unfoldable pub same_signature : Signature → Signature → Bool
same_signature value_void value_void = true
same_signature value_size value_size = true
same_signature (value_of a) (value_of b) = a == b
same_signature error_errc error_errc = true
same_signature error_exception error_exception = true
same_signature (error_of a) (error_of b) = a == b
same_signature stopped stopped = true
same_signature _ _ = false

unfoldable pub is_value : Signature → Bool
is_value value_void = true
is_value value_size = true
is_value (value_of a) = true
is_value _ = false

unfoldable pub declares : List Signature → Signature → Bool
unfolding same_signature
declares [] s = false
declares (x ∷ xs) s = same_signature x s || declares xs s

unfoldable pub has_value : List Signature → Bool
unfolding is_value
has_value [] = false
has_value (x ∷ xs) = is_value x || has_value xs

-- The names of the source, with `TCompletionSignatures` left out.
abbrev pub void_value : List Signature
void_value = value_void ∷ []

abbrev pub length_value : List Signature
length_value = value_size ∷ []

abbrev pub algorithm : List Signature
algorithm = error_errc ∷ []

abbrev pub exception : List Signature
exception = error_exception ∷ []

abbrev pub cancellable_algorithm : List Signature
cancellable_algorithm = error_errc ∷ stopped ∷ []

abbrev pub schedule : List Signature
schedule = value_void ∷ stopped ∷ []

abbrev pub schedule_eventually : List Signature
schedule_eventually = value_void ∷ error_errc ∷ stopped ∷ []

-- stdexec::make_completion_signatures<Sender, Env, Additional, SetValue>, where SetValue does not depend on its
-- arguments: the additional signatures, those of SetValue for every value signature of the sender, and the
-- sender's other signatures.
pub record MakeSignatures : Type 0 where
  pub make : (input additional values : List Signature) → List Signature
  pub make_lem :
      (input additional values : List Signature) (s : Signature)
      → declares (make input additional values) s
        ≡ declares additional s
          || (has_value input && declares values s || not (is_value s) && declares input s)
