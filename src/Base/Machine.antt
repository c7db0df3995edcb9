-- ===== src/Base/Machine.antt =====
-- Machines that an environment drives by events. `none` says that the environment cannot cause the
-- event in that state.
use mathlib.Core.Path.{◌≡◌, refl, subst}
use mathlib.Core.Bool.{true}
use mathlib.Core.Option.{Option, none, some}
use mathlib.Core.List.{List, [], ◌∷◌}
use uvexec.Base.Tests.{when-eq-some}
use uvexec.Base.Lists.{All}

module _ {S T : Type 0} where
  abbrev pub map_state : (S → T) → Option S → Option T
  map_state f none = none
  map_state f (some s) = some (f s)

  abbrev pub and_then : Option S → (S → Option T) → Option T
  and_then none f = none
  and_then (some s) f = f s

  -- Inversion of a chain that gives a state.
  pub and_then-eq-some :
      (o : Option S) (f : S → Option T) {t : T}
      → and_then o f ≡ some t
      → (s : S) × (o ≡ some s) × (f s ≡ some t)
  and_then-eq-some none f h = absurd (cc)
  and_then-eq-some (some s) f h = (s, refl, h)

  pub map_state-eq-some :
      (f : S → T) (o : Option S) {t : T}
      → map_state f o ≡ some t
      → (s : S) × (o ≡ some s) × (f s ≡ t)
  map_state-eq-some f none h = absurd (cc)
  map_state-eq-some f (some s) h = (s, refl, cc)

-- The state after a sequence of events.
abbrev pub run : {E S : Type 0} → (E → S → Option S) → List E → S → Option S
run step [] s = some s
run step (e ∷ es) s = and_then (step e s) (run step es)

-- `at` sends the phases of an abstract machine to states of a concrete one. Where every event does
-- in the concrete machine what it does in the abstract one, so does every sequence of events.
module _ {E S P : Type 0} (step : E → S → Option S) (move : E → P → Option P) (at : P → S) where
  and_then-map_state :
      (es : List E) (o : Option S) (q : Option P)
      → o ≡ map_state at q
      → ((p : P) → run step es (at p) ≡ map_state at (run move es p))
      → and_then o (run step es) ≡ map_state at (and_then q (run move es))
  and_then-map_state es o none e ih = rw e
  and_then-map_state es o (some p) e ih = rw e (ih p)

  pub run-map_state :
      (Sane : E → Type 0)
      → ((e : E) (p : P) → Sane e → step e (at p) ≡ map_state at (move e p))
      → (es : List E) (p : P) → All Sane es
      → run step es (at p) ≡ map_state at (run move es p)
  run-map_state Sane law [] p sane = refl
  run-map_state Sane law (e ∷ es) p sane =
      and_then-map_state es (step e (at p)) (move e p) (law e p sane.0)
        λ q. run-map_state Sane law es q sane.1

-- A run by its first event.
pub run-cons :
    {E S : Type 0} (step : E → S → Option S) (e : E) (es : List E) (s : S) {t : S} {o : Option S}
    → step e s ≡ some t
    → run step es t ≡ o
    → run step (e ∷ es) s ≡ o
run-cons step e es s first rest = rw first rest

-- What every step keeps, a run keeps.
pub run-keeps :
    {E S : Type 0} (step : E → S → Option S) (Sane : E → Type 0) (P : S → Type 0)
    → ((e : E) (s t : S) → P s → Sane e → step e s ≡ some t → P t)
    → (es : List E) (s t : S) → P s
    → All Sane es
    → run step es s ≡ some t
    → P t
run-keeps step Sane P keep [] s t h sane r = subst P (when-eq-some true s r).1 h
run-keeps step Sane P keep (e ∷ es) s t h sane r =
    let (u, st, r') = and_then-eq-some (step e s) (run step es) r in
    run-keeps step Sane P keep es u t (keep e s u h sane.0 st) sane.1 r'
