-- ===== src/AsyncValue/Invariant.antt =====
-- The invariant of the async_value operation.
use uvexec.Base.{
  ℕ, ◌+◌, ◌≤◌, ◌≡◌, refl, subst, ◌⊎◌, inl, inr, Bool, true, false, some, arith, Bool-cases, length,
}
use uvexec.AsyncValue.{
  Stage, waiting, inner_runs, body_runs, dropping, destroying, finished, swallowed, terminated,
  AsyncValueOpState, Types, connect, stop_callback, requests, step,
}

abbrev pub bit : Bool → ℕ
bit true = 1
bit false = 0

-- No value yet.
abbrev pub early : Stage → Bool
early waiting = true
early inner_runs = true
early terminated = true
early _ = false

-- The value is alive.
abbrev pub alive : Stage → Bool
alive body_runs = true
alive (dropping r) = true
alive swallowed = true
alive _ = false

abbrev pub is_destroying : Stage → Bool
is_destroying (destroying r) = true
is_destroying _ = false

abbrev pub is_finished : Stage → Bool
is_finished finished = true
is_finished _ = false

pub record IsOwned (types : Types) (op : AsyncValueOpState) : Type 0 where
  -- the receiver is completed at most once
  pub completed : length op.completions ≡ bit (is_finished op.stage)
  -- the value is constructed at most once, and is destroyed once unless it is alive
  pub balanced : op.constructed ≡ op.destroyed + bit op.value_engaged
  pub once : op.constructed ≤ 1
  -- a stop is passed on at most once, only if it was requested, and for certain while the stop callback is registered
  pub stops_once : op.value_stops + op.stray_stops ≤ 1
  pub asked : op.requested ≡ false → op.value_stops + op.stray_stops ≡ 0
  pub passed_on :
      types.is_value_stop_source ≡ true
      → op.requested ≡ true
      → op.callback_engaged ≡ true
      → op.value_stops + op.stray_stops ≡ 1
  -- a value that is alive gets the stop itself
  pub kept : op.value_engaged ≡ true → op.stray_stops ≡ 0
  -- the fields at each stage
  pub at_first :
      early op.stage ≡ true
      → (op.constructed ≡ 0) × (op.callback_engaged ≡ false) × (op.value_stops + op.stray_stops ≡ 0)
  pub in_life : alive op.stage ≡ true → (op.value_engaged ≡ true) × (op.callback_engaged ≡ true)
  pub at_last :
      is_destroying op.stage ≡ true → (op.value_engaged ≡ false) × (op.callback_engaged ≡ true)

module _ (types : Types) where
  pub connect-IsOwned : IsOwned types connect
  unfolding connect
  connect-IsOwned = record {
    completed = refl;
    balanced = refl;
    once = ground arith;
    stops_once = ground arith;
    asked = λ h. refl;
    passed_on = λ s h c. absurd (cc);
    kept = λ h. refl;
    at_first = λ h. (refl, refl, refl);
    in_life = λ h. absurd (cc);
    at_last = λ h. absurd (cc);
  }

  -- The three things that a stop request does: nothing, reach the value, or reach a `Value` that is not engaged.
  unheard :
      (op : AsyncValueOpState)
      → IsOwned types op
      → op.requested ≡ false
      → (op.callback_engaged ≡ false) ⊎ (types.is_value_stop_source ≡ false)
      → IsOwned types (record op { requested = true })
  unheard op x quiet why = record {
    completed = x.completed;
    balanced = x.balanced;
    once = x.once;
    stops_once = x.stops_once;
    asked = λ h. absurd (cc);
    passed_on = λ s h c. absurd (elim why [ inl e ↦ ground arith | inr e ↦ ground arith ]);
    kept = x.kept;
    at_first = x.at_first;
    in_life = x.in_life;
    at_last = x.at_last;
  }

  reached :
      (op : AsyncValueOpState)
      → IsOwned types op
      → op.requested ≡ false
      → op.callback_engaged ≡ true
      → op.value_engaged ≡ true
      → IsOwned types (record op { requested = true; value_stops = op.value_stops + 1 })
  reached op x quiet on v = record {
    completed = x.completed;
    balanced = x.balanced;
    once = x.once;
    stops_once = ground (arith, x.asked);
    asked = λ h. absurd (cc);
    passed_on = λ s h c. ground (arith, x.asked);
    kept = x.kept;
    at_first = λ h. absurd (let y = x.at_first h in ground arith);
    in_life = x.in_life;
    at_last = x.at_last;
  }

  strayed :
      (op : AsyncValueOpState)
      → IsOwned types op
      → op.requested ≡ false
      → op.callback_engaged ≡ true
      → op.value_engaged ≡ false
      → IsOwned types (record op { requested = true; stray_stops = op.stray_stops + 1 })
  strayed op x quiet on v = record {
    completed = x.completed;
    balanced = x.balanced;
    once = x.once;
    stops_once = ground (arith, x.asked);
    asked = λ h. absurd (cc);
    passed_on = λ s h c. ground (arith, x.asked);
    kept = λ h. absurd (ground arith);
    at_first = λ h. absurd (let y = x.at_first h in ground arith);
    in_life = x.in_life;
    at_last = x.at_last;
  }

  pub requested-IsOwned :
      (op t : AsyncValueOpState)
      → IsOwned types op
      → step types requests op ≡ some t
      → IsOwned types t
  unfolding step stop_callback
  requested-IsOwned op t x h = elim (Bool-cases op.requested) [
    | inl asked ↦ let same : op ≡ t = ground arith in subst (IsOwned types) same x
    | inr quiet ↦ elim (Bool-cases op.callback_engaged) [
      | inr off ↦
          let same : record op { requested = true } ≡ t = ground arith in
          subst (IsOwned types) same (unheard op x quiet (inl off))
      | inl on ↦ elim (Bool-cases types.is_value_stop_source) [
        | inr deaf ↦
            let same : record op { requested = true } ≡ t = ground arith in
            subst (IsOwned types) same (unheard op x quiet (inr deaf))
        | inl hears ↦ elim (Bool-cases op.value_engaged) [
          | inl v ↦
              let same : record op { requested = true; value_stops = op.value_stops + 1 } ≡ t =
                ground arith in
              subst (IsOwned types) same (reached op x quiet on v)
          | inr v ↦
              let same : record op { requested = true; stray_stops = op.stray_stops + 1 } ≡ t =
                ground arith in
              subst (IsOwned types) same (strayed op x quiet on v)
        ]
      ]
    ]
  ]
