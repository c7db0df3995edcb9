-- ===== src/Stream/Tests.antt =====
-- Runs of the reads, and the laws at them.
use uvexec.Base.{
  ℕ, ◌+◌, ◌≡◌, refl, Bool, true, false, some, List, [], ◌∷◌, arith, ltb, ℤ, pos, negsuc, length,
  run,
}
use uvexec.Uv.{set_value, set_stopped}
use uvexec.StopOperation
use uvexec.Transfer.{Event, begins, arrives, requests, stops}
use uvexec.Transfer.Laws.{IsSafe}
use uvexec.Stream.ReadSome
use uvexec.Stream.ReadSome.{Span, ReadSomeOpState}
use uvexec.Stream.ReadUntil
use uvexec.Stream.ReadUntil.{ReadUntilOpState}
use uvexec.Stream.Laws.{read_until-IsSafe, read_until-sum, sum, reads}

-- libuv's UV_EOF.
abbrev eof : ℤ
eof = negsuc 4094

abbrev buff : Span
buff = record { start = 100; size = 8 }

-- An empty read, then the end of the stream.
abbrev ended : List (Event ℤ)
ended = begins (pos 0) ∷ arrives (pos 0) ∷ arrives eof ∷ []

abbrev at_end : ReadSomeOpState
at_end = record {
  stop_op = StopOperation.state false true false 0;
  buf = buff;
  reading = false;
  waiting = false;
  receiver = true;
  undefined = false;
  completions = set_value 0 ∷ [];
}

ended-run :
    run (ReadSome.step eof buff) ended (ReadSome.start (ReadSome.connect false)) ≡ some at_end
unfolding ReadSome.step ReadSome.start ReadSome.connect
ended-run = refl

-- The condition of the run below: a read of 5 bytes or more ends it.
abbrev long : ℕ → Bool
long n = ltb 4 n

-- A stop request between two reads.
abbrev cut_short : List (Event ℤ)
cut_short = begins (pos 0) ∷ arrives (pos 3) ∷ requests ∷ stops ∷ []

abbrev cut : ReadUntilOpState
cut = record {
  stop_op = StopOperation.state true true false 0;
  buf = 100;
  read_total = 3;
  reading = false;
  waiting = false;
  receiver = true;
  undefined = false;
  completions = set_stopped ∷ [];
}

cut-run :
    run (ReadUntil.step long eof 100) cut_short (ReadUntil.start (ReadUntil.connect false))
    ≡ some cut
unfolding ReadUntil.step ReadUntil.start ReadUntil.connect
cut-run = refl

read_until-IsSafe_example :
    IsSafe cut.completions cut.reading cut.stop_op
    × (fs : List (Event ℤ)) × (t : ReadUntilOpState) × (run (ReadUntil.step long eof 100) fs cut
        ≡ some t)
    × (length t.completions ≡ 1)
read_until-IsSafe_example = read_until-IsSafe long eof 100 false cut_short cut cut-run

read_until-sum_example :
    (s : ReadUntilOpState) × (run
        (ReadUntil.step long eof 100)
        (begins (pos 0) ∷ reads (2 ∷ 3 ∷ []) 6)
        (ReadUntil.start (ReadUntil.connect false))
      ≡ some s)
    × (s.completions ≡ set_value (sum (2 ∷ 3 ∷ []) + 6) ∷ [])
    × (s.reading ≡ false)
read_until-sum_example =
    read_until-sum long eof 100 (2 ∷ 3 ∷ []) 6 ((omega arith, refl), ((omega arith, refl), tt))
      (omega arith) refl (omega arith)
