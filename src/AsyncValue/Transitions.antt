-- ===== src/AsyncValue/Transitions.antt =====
-- What the stages of the async_value operation do to its invariant.
use uvexec.Base.{ℕ, ◌+◌, ◌≡◌, refl, true, false, ◌&&◌, List, arith, length}
use uvexec.Scope.{Result}
use uvexec.AsyncValue.{Stage, AsyncValueOpState, Types, reset_value, reset_callback}
use uvexec.AsyncValue.Invariant.{bit, early, alive, is_destroying, is_finished, IsOwned}

module _ (types : Types) where
  -- The inner sender is still running, or not started.
  pub first_stage :
      (op : AsyncValueOpState) (s : Stage) (c : List Result)
      → IsOwned types op
      → early op.stage ≡ true
      → alive s ≡ false
      → is_destroying s ≡ false
      → length c ≡ bit (is_finished s)
      → IsOwned types (record op { stage = s; completions = c })
  first_stage op s c x now a d counted = record {
    completed = counted;
    balanced = x.balanced;
    once = x.once;
    stops_once = x.stops_once;
    asked = x.asked;
    passed_on = x.passed_on;
    kept = x.kept;
    at_first = λ h. x.at_first now;
    in_life = λ h. absurd (ground arith);
    at_last = λ h. absurd (ground arith);
  }

  -- The value and the callback are constructed; `n` stop requests reached the value at once.
  pub constructed_value :
      (op : AsyncValueOpState) (s : Stage) (c : List Result) (n : ℕ)
      → IsOwned types op
      → early op.stage ≡ true
      → early s ≡ false
      → is_destroying s ≡ false
      → length c ≡ bit (is_finished s)
      → n ≡ bit (op.requested && types.is_value_stop_source)
      → IsOwned types (record op {
        stage = s;
        completions = c;
        value_engaged = true;
        callback_engaged = true;
        constructed = op.constructed + 1;
        value_stops = n;
      })
  constructed_value op s c n x now later d counted stops =
      let (none_yet, off, unstopped) = x.at_first now in
      let balance = x.balanced in
      record {
        completed = counted;
        balanced = ground arith;
        once = ground arith;
        stops_once = ground arith;
        asked = λ h. ground arith;
        passed_on = λ h r e. ground arith;
        kept = λ h. ground arith;
        at_first = λ h. absurd (ground arith);
        in_life = λ h. (refl, refl);
        at_last = λ h. absurd (ground arith);
      }

  -- The body and the drop.
  pub later_stage :
      (op : AsyncValueOpState) (s : Stage) (c : List Result)
      → IsOwned types op
      → alive op.stage ≡ true
      → early s ≡ false
      → is_destroying s ≡ false
      → length c ≡ bit (is_finished s)
      → IsOwned types (record op { stage = s; completions = c })
  later_stage op s c x now e d counted = record {
    completed = counted;
    balanced = x.balanced;
    once = x.once;
    stops_once = x.stops_once;
    asked = x.asked;
    passed_on = x.passed_on;
    kept = x.kept;
    at_first = λ h. absurd (ground arith);
    in_life = λ h. x.in_life now;
    at_last = λ h. absurd (ground arith);
  }

  pub value_reset :
      (op : AsyncValueOpState) (r : Result)
      → IsOwned types op
      → alive op.stage ≡ true
      → is_finished op.stage ≡ false
      → IsOwned types (reset_value types r op)
  unfolding reset_value
  value_reset op r x now unfinished =
      let (engaged, on) = x.in_life now in
      let balance = x.balanced in
      record {
        completed = ground (arith, x.completed);
        balanced = ground arith;
        once = x.once;
        stops_once = x.stops_once;
        asked = x.asked;
        passed_on = x.passed_on;
        kept = λ h. absurd (cc);
        at_first = λ h. absurd (cc);
        in_life = λ h. absurd (cc);
        at_last = λ h. (refl, on);
      }

  pub callback_reset :
      (op : AsyncValueOpState) (r : Result)
      → IsOwned types op
      → is_destroying op.stage ≡ true
      → is_finished op.stage ≡ false
      → IsOwned types (reset_callback types r op)
  unfolding reset_callback
  callback_reset op r x now unfinished = record {
    completed = ground (arith, x.completed);
    balanced = x.balanced;
    once = x.once;
    stops_once = x.stops_once;
    asked = x.asked;
    passed_on = λ h q e. absurd (cc);
    kept = x.kept;
    at_first = λ h. absurd (cc);
    in_life = λ h. absurd (cc);
    at_last = λ h. absurd (cc);
  }
