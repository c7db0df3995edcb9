-- ===== src/Loop/Exclusion.antt =====
-- At most one thread is in uv_run.
use uvexec.Base.{
  ℕ, ◌≡◌, refl, subst, Bool, true, false, some, List, [], ◌∷◌, arith, if◌then◌else◌, run,
  and_then-eq-some,
}
use uvexec.Loop.{
  Place, checking, entering, executing, Loop, new, Event, acquires, proceeds, advances, completes,
  step,
}
use uvexec.Loop.Exclusive.{holds, runs, IsExclusive, acquired, proceeded, advanced, completed}

run-IsExclusive :
    (es : List Event) (l z : Loop) → IsExclusive l → run step es l ≡ some z → IsExclusive z
unfolding step
run-IsExclusive [] l z x h = let same : l ≡ z = ground arith in subst IsExclusive same x
run-IsExclusive (acquires t ∷ es) l z x h =
    let (l', first, rest) = and_then-eq-some (step (acquires t) l) (run step es) h in
    run-IsExclusive es l' z (acquired l x t l' (l.place t) refl first) rest
run-IsExclusive (proceeds t ∷ es) l z x h =
    let (l', first, rest) = and_then-eq-some (step (proceeds t) l) (run step es) h in
    run-IsExclusive es l' z (proceeded l x t l' (l.place t) refl first) rest
run-IsExclusive (advances t ∷ es) l z x h =
    let (l', first, rest) = and_then-eq-some (step (advances t) l) (run step es) h in
    run-IsExclusive es l' z (advanced l x t l' (l.place t) refl first) rest
run-IsExclusive (completes u t ∷ es) l z x h =
    let (l', first, rest) = and_then-eq-some (step (completes u t) l) (run step es) h in
    run-IsExclusive es l' z (completed l x t l' u (l.place u) refl first) rest

at_first : Bool → Place
at_first b = if b then checking else entering

at_first-outside : (b : Bool) → (holds (at_first b) ≡ false) × (runs (at_first b) ≡ false)
unfolding at_first
at_first-outside true = (refl, refl)
at_first-outside false = (refl, refl)

pub new-IsExclusive : (steals : ℕ → Bool) → IsExclusive (new steals)
unfolding at_first
new-IsExclusive steals =
    let outside : (t : ℕ)
        → (holds (at_first (steals t)) ≡ false) × (runs (at_first (steals t)) ≡ false) =
      λ t. at_first-outside (steals t) in
    record {
      held = λ t h. absurd (ground (arith, outside t));
      alone = λ t u h k. absurd (ground (arith, outside t));
      set = λ t h. absurd (ground (arith, outside t));
      single = λ t u h k. absurd (ground (arith, outside t));
    }

-- However the threads that call run, run_once or drain on a new loop, or wait for a sync_wait on it, interleave, at most
-- one of them is in uv_run.
pub run_alone :
    (steals : ℕ → Bool) (es : List Event) (z : Loop) (t u : ℕ)
    → run step es (new steals) ≡ some z
    → z.place t ≡ executing
    → z.place u ≡ executing
    → t ≡ u
run_alone steals es z t u h p q =
    let x = run-IsExclusive es (new steals) z (new-IsExclusive steals) h in
    x.single t u (rw p refl) (rw q refl)
