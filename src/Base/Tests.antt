-- ===== src/Base/Tests.antt =====
-- Boolean tests on the native numbers, the conditional, and case splits that keep the equation.
use Prim.Native.Nat.{ℕ, compare, Ordering}
use mathlib.Core.Path.{◌≡◌, refl, ap}
use mathlib.Core.Logic.{◌⊎◌, inl, inr}
use mathlib.Core.Bool.{Bool, true, false, not, ◌&&◌, ◌||◌}
use mathlib.Core.Option.{Option, none, some}

abbrev pub ltb : ℕ → ℕ → Bool
ltb a b = elim (compare a b) [ Ordering.lt ↦ true | _ ↦ false ]

infix 50 ◌==◌
abbrev pub ◌==◌ : ℕ → ℕ → Bool
a == b = elim (compare a b) [ Ordering.eq ↦ true | _ ↦ false ]

infix 1 if◌then◌else◌
abbrev pub if◌then◌else◌ {ℓ} : {A : Type ℓ} → Bool → A → A → A
if true then x else y = x
if false then x else y = y

-- A step that its environment takes only when the test holds.
abbrev pub when {ℓ} : {A : Type ℓ} → Bool → A → Option A
when true a = some a
when false a = none

pub Bool-cases : (b : Bool) → (b ≡ true) ⊎ (b ≡ false)
Bool-cases true = inl refl
Bool-cases false = inr refl

pub or_assoc : (a b c : Bool) → (a || b || c) ≡ (a || (b || c))
or_assoc true b c = refl
or_assoc false b c = refl

pub or_false : (b : Bool) → (b || false) ≡ b
or_false true = refl
or_false false = refl

abbrev some_or {ℓ} : {A : Type ℓ} → A → Option A → A
some_or d none = d
some_or d (some x) = x

-- Inversion of a step that was taken.
pub when-eq-some {ℓ} :
    {A : Type ℓ} (b : Bool) (x : A) {y : A} → when b x ≡ some y → (b ≡ true) × (x ≡ y)
when-eq-some true x h = (refl, ap (some_or x) h)
when-eq-some false x h = absurd (cc)

pub and-eq-true : (a b : Bool) → (a && b) ≡ true → (a ≡ true) × (b ≡ true)
and-eq-true true b h = (refl, h)
and-eq-true false b h = absurd (cc)

pub not-eq-true : (b : Bool) → not b ≡ true → b ≡ false
not-eq-true true h = absurd (cc)
not-eq-true false h = refl
