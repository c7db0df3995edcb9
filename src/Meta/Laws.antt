-- ===== src/Meta/Laws.antt =====
-- Where a type stands in a list of types.
use uvexec.Base.{
  ℕ, zero, suc, ◌+◌, ◌≤◌, ◌<◌, ◌≡◌, subst, ◌≢◌, ◌⊎◌, inl, inr, true, false, List, [], ◌∷◌, arith,
  ◌==◌, Bool-cases, length,
}
use mathlib.Core.Logic.{◌↔◌}
use uvexec.Meta.{CppType, index_from, index_of, contains}

-- The type is in the list, by an independent description.
abbrev pub IsMember : CppType → List CppType → Type 0
IsMember t [] = ⊥
IsMember t (u ∷ us) = (t ≡ u) ⊎ IsMember t us

-- The types before the place are others.
abbrev pub IsFirst : CppType → ℕ → List CppType → Type 0
IsFirst t zero [] = ⊥
IsFirst t (suc n) [] = ⊥
IsFirst t zero (u ∷ us) = t ≡ u
IsFirst t (suc n) (u ∷ us) = (t ≢ u) × IsFirst t n us

IsFirst-lt : (t : CppType) (k : ℕ) (ts : List CppType) → IsFirst t k ts → k < length ts
IsFirst-lt t zero [] h = absurd h
IsFirst-lt t (suc n) [] h = absurd h
IsFirst-lt t zero (u ∷ us) h = omega arith
IsFirst-lt t (suc n) (u ∷ us) h = omega (arith, IsFirst-lt t n us h.1)

index_from-le : (t : CppType) (n : ℕ) (ts : List CppType) → index_from t n ts ≤ n + length ts
unfolding index_from
index_from-le t n [] = omega arith
index_from-le t n (u ∷ us) = ground (arith, index_from-le t (suc n) us)

member :
    (t : CppType) (n : ℕ) (ts : List CppType) → index_from t n ts < n + length ts → IsMember t ts
unfolding index_from
member t n [] h = absurd (omega arith)
member t n (u ∷ us) h = elim (Bool-cases (t == u)) [
  | inl e ↦ inl (ground arith)
  | inr e ↦ inr (member t (suc n) us (ground arith))
]

found :
    (t : CppType) (n : ℕ) (ts : List CppType)
    → IsMember t ts
    → (k : ℕ) × (index_from t n ts ≡ n + k) × IsFirst t k ts
unfolding index_from
found t n [] h = absurd h
found t n (u ∷ us) h = elim (Bool-cases (t == u)) [
  | inl e ↦ (0, (ground arith), ground arith)
  | inr e ↦ elim h [
    | inl same ↦ absurd (ground arith)
    | inr later ↦
        let (k, p, q) = found t (suc n) us later in (suc k, (ground arith), (ground arith, q))
  ]
]

-- IsIn holds exactly of the types of the list, and IndexOf of such a type is the first place where it stands; of
-- another type it is the length of the list.
pub contains_iff :
    (t : CppType) (ts : List CppType)
    → ((contains t ts ≡ true) ↔ IsMember t ts)
      × (IsMember t ts → IsFirst t (index_of t ts) ts)
      × (contains t ts ≡ false → index_of t ts ≡ length ts)
unfolding contains index_of
contains_iff t ts = (
  (
    λ h. member t 0 ts (ground arith),
    λ m.
        let (k, p, q) = found t 0 ts m in
        let before : index_from t 0 ts < length ts = omega (arith, p, IsFirst-lt t k ts q) in
        ground arith,
  ),
  (λ m.
      let (k, p, q) = found t 0 ts m in
      let here : k ≡ index_from t 0 ts = omega (arith, p) in subst (λ j. IsFirst t j ts) here q),
  λ h. ground (arith, index_from-le t 0 ts),
)
