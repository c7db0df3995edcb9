-- ===== src/Stream/Laws.antt =====
-- What the stream reads do: read_some_op_state.hpp and read_until_op_state.hpp.
use uvexec.Base.{
  ℕ, ◌+◌, ◌%◌, ◌^◌, ◌<◌, ◌≡◌, refl, ap, ◌∙◌, Bool, true, false, some, List, [], ◌∷◌, arith, ℤ, pos,
  length, All, run, map_state, run-map_state,
}
use uvexec.Uv.{is_error, set_value}
use uvexec.Transfer.{Event, begins, arrives, Phase, move, begin, answer}
use uvexec.Transfer
use uvexec.Transfer.Laws.{IsSafe, run-IsSafe, run-CanFinish}
use uvexec.Stream.ReadSome
use uvexec.Stream.ReadSome.{Span, ReadSomeOpState}
use uvexec.Stream.ReadUntil
use uvexec.Stream.ReadUntil.{ReadUntilOpState}

-- All events are sane to a stream.
every_event : (es : List (Event ℤ)) → All (λ _. Unit {0}) es
every_event [] = tt
every_event (e ∷ es) = (tt, every_event es)

-- Whatever happens to a started `TReadSomeOpState`, its receiver is completed at most once, and not while the
-- stream is read; its stop operation is in the loop's list at most once, and only until the completion; and
-- events can follow after which the receiver was completed exactly once.
pub read_some-IsSafe :
    (eof : ℤ) (buff : Span) (r : Bool) (es : List (Event ℤ)) (s : ReadSomeOpState)
    → run (ReadSome.step eof buff) es (ReadSome.start (ReadSome.connect r)) ≡ some s
    → IsSafe s.completions s.reading s.stop_op
      × (fs : List (Event ℤ)) × (t : ReadSomeOpState) × (run (ReadSome.step eof buff) fs s ≡ some t)
      × (length t.completions ≡ 1)
unfolding ReadSome.operation
read_some-IsSafe eof buff r es s h =
    let o = ReadSome.operation eof buff in
    let e = rw (ReadSome.start-connect eof buff r) at h in
    let (fs, t, sane, reach, once) = run-CanFinish o es r s (every_event es) e in
    (run-IsSafe o es r s (every_event es) e, fs, t, reach, once)

-- Whatever happens to a started `TReadUntilOpState`, its receiver is completed at most once, and not while the
-- stream is read; its stop operation is in the loop's list at most once, and only until the completion; and
-- events can follow after which the receiver was completed exactly once.
pub read_until-IsSafe :
    (condition : ℕ → Bool) (eof : ℤ) (buff : ℕ) (r : Bool) (es : List (Event ℤ))
    (s : ReadUntilOpState)
    → run (ReadUntil.step condition eof buff) es (ReadUntil.start (ReadUntil.connect r)) ≡ some s
    → IsSafe s.completions s.reading s.stop_op
      × (fs : List (Event ℤ)) × (t : ReadUntilOpState) × (run
            (ReadUntil.step condition eof buff)
            fs
            s
          ≡ some t)
      × (length t.completions ≡ 1)
unfolding ReadUntil.operation
read_until-IsSafe condition eof buff r es s h =
    let o = ReadUntil.operation condition eof buff in
    let e = rw (ReadUntil.start-connect condition eof buff r) at h in
    let (fs, t, sane, reach, once) = run-CanFinish o es r s (every_event es) e in
    (run-IsSafe o es r s (every_event es) e, fs, t, reach, once)

abbrev pub sum : List ℕ → ℕ
sum [] = 0
sum (k ∷ ks) = k + sum ks

-- Reads of the sizes `ks`, then one of size `n`.
abbrev pub reads : List ℕ → ℕ → List (Event ℤ)
reads [] n = arrives (pos n) ∷ []
reads (k ∷ ks) n = arrives (pos k) ∷ reads ks n

-- A read that brings data, and does not meet the condition.
abbrev pub GoesOn : (ℕ → Bool) → ℕ → Type 0
GoesOn condition k = (0 < k) × (condition k ≡ false)

module _ (condition : ℕ → Bool) (eof : ℤ) (buff : ℕ) where
  respond-goes :
      (x k : ℕ)
      → GoesOn condition k
      → x + k < 2 ^ 64
      → ReadUntil.respond condition eof buff x (pos k) ≡ Transfer.continue (x + k)
  respond-goes x k goes small = let wrap : (x + k) % 2 ^ 64 ≡ x + k = omega arith in ground arith

  respond-met :
      (x n : ℕ)
      → (0 < n) × (condition n ≡ true)
      → x + n < 2 ^ 64
      → ReadUntil.respond condition eof buff x (pos n) ≡ Transfer.finish (x + n) (set_value (x + n))
  respond-met x n met small = let wrap : (x + n) % 2 ^ 64 ≡ x + n = omega arith in ground arith

  run-reads :
      (n : ℕ)
      → (0 < n) × (condition n ≡ true)
      → (ks : List ℕ) (x t : ℕ) → All (GoesOn condition) ks
      → x + (sum ks + n) ≡ t
      → t < 2 ^ 64
      → run (move 0 (ReadUntil.respond condition eof buff)) (reads ks n) (Phase.armed x)
        ≡ some (Phase.done t (set_value t) false)
  unfolding move answer
  run-reads n met [] x t all e small =
      rw (respond-met x n met (omega arith)) (let e' : x + n ≡ t = omega arith in rw e')
  run-reads n met (k ∷ ks) x t (goes, all) e small =
      rw (respond-goes x k goes (omega arith))
        (run-reads n met ks (x + k) t all (omega arith) small)

  -- Reads that bring data and do not meet the condition, and then one that meets it, complete the receiver with
  -- the size of all the data together, where that fits `std::size_t`; the stream is not read any more.
  pub read_until-sum :
      (ks : List ℕ) (n : ℕ)
      → All (GoesOn condition) ks
      → 0 < n
      → condition n ≡ true
      → sum ks + n < 2 ^ 64
      → (s : ReadUntilOpState) × (run
            (ReadUntil.step condition eof buff)
            (begins (pos 0) ∷ reads ks n)
            (ReadUntil.start (ReadUntil.connect false))
          ≡ some s)
        × (s.completions ≡ set_value (sum ks + n) ∷ [])
        × (s.reading ≡ false)
  unfolding ReadUntil.at move begin is_error
  read_until-sum ks n all pos_n met small =
      let p = Phase.done (sum ks + n) (set_value (sum ks + n)) false in
      (
        ReadUntil.at condition eof buff p,
        rw (ReadUntil.start-connect condition eof buff false) (
            run-map_state (ReadUntil.step condition eof buff)
              (move 0 (ReadUntil.respond condition eof buff)) (ReadUntil.at condition eof buff)
              (λ _. Unit {0}) (λ e q h. ReadUntil.step-move condition eof buff e q)
              (begins (pos 0) ∷ reads ks n) (Phase.idle false) (tt, every_event (reads ks n))
            ∙ ap (map_state (ReadUntil.at condition eof buff))
                (run-reads n (pos_n, met) ks 0 (sum ks + n) all (omega arith) small)),
        refl,
        refl,
      )
