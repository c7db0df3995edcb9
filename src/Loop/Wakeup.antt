-- ===== src/Loop/Wakeup.antt =====
-- The first thread in the queue is woken up when the loop gets free, but may miss it.
use uvexec.Base.{ℕ, ◌+◌, ◌≡◌, refl, ◌∙◌, ◌≢◌, true, false, not, ◌||◌, some, List, ◌∷◌, arith, ◌==◌}
use uvexec.Loop.{
  leaving, sleeping, rejoining, returned, Loop, go, resume, wakeup, wakeup_next, proceed, advance,
  proceeds, advances, step,
}

-- The step of a thread in `Wait`.
module _ (m : Loop) (t w : ℕ) where
  advance_awake :
      m.place t ≡ sleeping w
      → (w == 0 || not (m.awakenings t == w)) ≡ true
      → advance t m ≡ some (record m { place = go m t rejoining })
  unfolding advance
  advance_awake s c = rw (advance, s, c) refl

module _ (l : Loop) (t u : ℕ) (rest : List ℕ) (other : t ≢ u) (first : l.runners ≡ t ∷ rest)
    (live : l.awakenings t ≢ 0) (leaves : l.place u ≡ leaving) where
  -- The loop after the thread `u` left it.
  abbrev pub left : Loop
  left = record l {
    locked = false;
    running = false;
    runners = rest;
    awakenings = wakeup l.awakenings t;
    place = go l u (resume l u returned);
  }

  left-proceed : proceed u l ≡ some left
  unfolding proceed wakeup_next
  left-proceed =
      let unfinished : (l.awakenings t == 0) ≡ false = ground arith in
      rw (proceed, leaves, first, wakeup_next, unfinished) refl

  left-place : left.place t ≡ l.place t
  left-place = ground arith

  left-awakenings : left.awakenings t ≡ l.awakenings t + 1
  left-awakenings = ground arith

  -- A thread that leaves the loop takes the first unfinished runner out of the queue; where that runner's thread has
  -- loaded `Awakenings` in `Wait` already, it can then go on.
  pub wakeup_arrives :
      l.place t ≡ sleeping (l.awakenings t)
      → (step (proceeds u) l ≡ some left)
        × (step (advances t) left ≡ some (record left { place = go left t rejoining }))
  unfolding step
  wakeup_arrives s = (
    left-proceed,
    advance_awake left t (l.awakenings t) (left-place ∙ s) (ground (arith, left-awakenings)),
  )
