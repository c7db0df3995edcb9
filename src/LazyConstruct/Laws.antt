-- ===== src/LazyConstruct/Laws.antt =====
-- What uses of a lazily constructed value give.
use uvexec.Base.{ℕ, zero, suc, ◌≡◌, refl, ap, Option, none, some, List, [], ◌∷◌}
use uvexec.LazyConstruct.{
  Outcome, refers, threw, undefined, memory, TLazyConstruct, new, constructed, transmogrify,
  first_use, to_reference, to_const_reference, destroy,
}

abbrev pub replicate : {A : Type 0} → ℕ → A → List A
replicate zero a = []
replicate (suc n) a = a ∷ replicate n a

module _ {T Args : Type 0} (construct : Args → Option T) where
  -- `n` uses in a row: what each of them gives, and what they leave.
  unfoldable pub uses : ℕ → TLazyConstruct T Args → List (Outcome T) × TLazyConstruct T Args
  unfolding to_reference
  uses zero l = ([], l)
  uses (suc n) l =
      let (o, l') = to_reference construct l in let (os, l'') = uses n l' in (o ∷ os, l'')

  module _ (args : Args) where
    -- What the first use leaves.
    abbrev pub used : Option T → TLazyConstruct T Args
    used o = record { value = memory o; constructions = 1 }

    uses-used : (n : ℕ) (t : T) → uses n (used (some t)) ≡ (replicate n (refers t), used (some t))
    unfolding uses constructed
    uses-used zero t = refl
    uses-used (suc n) t = rw (uses-used n t) refl

    first-used :
        (o : Option T)
        → construct args ≡ o
        → to_reference construct (new args) ≡ first_use construct (used o)
    unfolding to_reference transmogrify constructed new
    first-used o h = ap (λ p. first_use construct (used p)) h

    -- The object is constructed at the first use, and never again: all uses refer to the same object, if its constructor
    -- does not throw.
    pub constructed_once :
        (n : ℕ) (t : T)
        → construct args ≡ some t
        → uses (suc n) (new args) ≡ (replicate (suc n) (refers t), used (some t))
    unfolding uses
    constructed_once n t h = rw (first-used (some t) h, uses-used n t) refl

    -- Where the constructor throws, the first use throws, but leaves a memory without an object that counts as
    -- constructed: the next use refers to no object, and the destructor destroys none.
    pub throwing_constructor :
        construct args ≡ none
        → (to_reference construct (new args) ≡ (threw, used none))
          × (to_reference construct (used none) ≡ (undefined, used none))
          × (to_const_reference (used none) ≡ undefined)
          × (destroy (used none) ≡ undefined)
    unfolding to_reference to_const_reference destroy constructed
    throwing_constructor h = (first-used none h, refl, refl, refl)
