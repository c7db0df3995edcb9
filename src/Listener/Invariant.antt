-- ===== src/Listener/Invariant.antt =====
-- A listener that is bound: its list of accepts, its count of connections and its accepts.
use uvexec.Base.{
  ℕ, ◌≤◌, ◌<◌, ◌≡◌, refl, ◌≢◌, ◌⊎◌, inl, inr, Bool, true, false, List, [], ◌∷◌, arith, ◌==◌,
  Bool-cases, pos, is_negative, length,
}
use uvexec.Uv.{UvError}
use uvexec.StopOperation.{request, take_out}
use uvexec.IntrusiveList.Chain.{has, remove}
use uvexec.Listener.Accept.{AcceptOpState, accept, emplace, setup_stop, stop_callback}
use uvexec.Listener.{
  stop_accept, set_value, is_positive, TcpListener, Answers, set_op, is_positive, set_value,
}

-- An accept, in the list or not: it completes at most once, through a receiver that it has; it waits in the list
-- for as long as it has neither completed nor was taken out.
pub record IsSound (o : AcceptOpState) (listed : Bool) : Type 0 where
  pub once : length o.completions ≤ 1
  pub defined : o.undefined ≡ false
  pub new :
      o.waiting ≡ true
      → (o.completions ≡ [])
        × (o.stop_op.scheduled ≡ 0)
        × (o.stop_op.used ≡ false)
        × (o.stop_op.engaged ≡ false)
        × (listed ≡ false)
  pub in_list : listed ≡ true → (o.completions ≡ []) × (o.receiver ≡ true)
  pub held : o.stop_op.engaged ≡ true → o.receiver ≡ true
  pub under_way :
      0 < o.stop_op.scheduled
      → (o.completions ≡ [])
        × (o.receiver ≡ true)
        × (o.stop_op.used ≡ true)
        × (o.stop_op.requested ≡ true)
  pub scheduled_once : o.stop_op.scheduled ≤ 1
  pub finished : o.completions ≢ [] → (o.stop_op.used ≡ true) × (o.stop_op.scheduled ≡ 0)
  pub accepted : o.accepts ≤ length o.completions

module _ (o : AcceptOpState) where
  request-IsSound : (b : Bool) → IsSound o b → IsSound (record o { stop_op = request o.stop_op }) b
  unfolding request
  request-IsSound b s = ground arith

  accept-IsSound : (err : UvError) → IsSound o true → IsSound (accept err o) false
  unfolding accept
  accept-IsSound err s = ground arith

  stop-IsSound :
      (b : Bool)
      → IsSound o b
      → 0 < o.stop_op.scheduled
      → IsSound (stop_callback (record o { stop_op = take_out o.stop_op })) false
  unfolding stop_callback
  stop-IsSound b s h = ground arith

  abbrev begun : AcceptOpState
  begun = record o { waiting = false }

  accept_now-IsSound :
      (err : UvError)
      → IsSound o false
      → o.waiting ≡ true
      → IsSound (setup_stop (accept err (emplace begun))) false
  unfolding accept emplace setup_stop
  accept_now-IsSound err s w = ground arith

  wait-IsSound : IsSound o false → o.waiting ≡ true → IsSound (setup_stop (emplace begun)) true
  unfolding emplace setup_stop
  wait-IsSound s w = ground arith

abbrev pub IsDistinct : List ℕ → Type 0
IsDistinct [] = Unit
IsDistinct (x ∷ xs) = (has x xs ≡ false) × IsDistinct xs

pub record IsBound (l : TcpListener) : Type 0 where
  pub counted : is_negative l.pending ≡ false
  -- while a connection is counted, no accept is in the list
  pub matched : (l.accept_list ≡ []) ⊎ (l.pending ≡ pos 0)
  pub distinct : IsDistinct l.accept_list
  pub sound : (a : ℕ) → IsSound (l.ops a) (has a l.accept_list)

same_self : (a : ℕ) → (a == a) ≡ true
same_self a = ground arith

has-remove-ne : (c a : ℕ) (xs : List ℕ) → (c == a) ≡ false → has c (remove a xs) ≡ has c xs
has-remove-ne c a [] h = refl
has-remove-ne c a (x ∷ xs) h = ground (arith, has-remove-ne c a xs)

not-has-remove : (a : ℕ) (xs : List ℕ) → IsDistinct xs → has a (remove a xs) ≡ false
not-has-remove a [] d = refl
not-has-remove a (x ∷ xs) d = ground (arith, not-has-remove a xs)

remove-IsDistinct : (a : ℕ) (xs : List ℕ) → IsDistinct xs → IsDistinct (remove a xs)
remove-IsDistinct a [] d = tt
remove-IsDistinct a (x ∷ xs) (new, d) = elim (Bool-cases (a == x)) [
  | inl hit ↦ rw hit d
  | inr miss ↦
      let apart : (x == a) ≡ false = ground arith in
      rw miss (rw (has-remove-ne x a xs apart) new, remove-IsDistinct a xs d)
]

remove-nil : (a : ℕ) (xs : List ℕ) → xs ≡ [] → remove a xs ≡ []
remove-nil a xs e = rw e

module _ (l : TcpListener) (b : IsBound l) where
  -- The listener when the sender before accept `a` completed.
  abbrev pub called : ℕ → TcpListener
  called a = record l { ops = set_op l.ops a (record (l.ops a) { waiting = false }) }

  unlisted : (a : ℕ) → (l.ops a).waiting ≡ true → has a l.accept_list ≡ false
  unlisted a w = ground (arith, b.sound a)

  pub accept_now :
      (u : Answers) (a : ℕ)
      → (l.ops a).waiting ≡ true
      → is_positive l.pending ≡ true
      → IsBound (set_value u a (called a))
  unfolding set_value
  accept_now u a w some_pending = rw some_pending (record {
    counted = ground (arith, b.counted);
    matched = ground (arith, b.matched);
    distinct = b.distinct;
    sound = λ c. elim (Bool-cases (c == a)) [
      | inl hit ↦
          let e : c ≡ a = ground arith in
          rw (e, same_self a, unlisted a w)
            (accept_now-IsSound (l.ops a) u.accept (rw (unlisted a w) at (b.sound a)) w)
      | inr miss ↦ rw miss (b.sound c)
    ];
  })

  pub wait_in_list :
      (u : Answers) (a : ℕ)
      → (l.ops a).waiting ≡ true
      → is_positive l.pending ≡ false
      → IsBound (set_value u a (called a))
  unfolding set_value
  wait_in_list u a w none_pending =
      rw (none_pending, b.counted)
        (record {
          counted = b.counted;
          matched = ground (arith, b.counted);
          distinct = (unlisted a w, b.distinct);
          sound = λ c. elim (Bool-cases (c == a)) [
            | inl hit ↦
                let e : c ≡ a = ground arith in
                rw (e, same_self a) (wait-IsSound (l.ops a) (rw (unlisted a w) at (b.sound a)) w)
            | inr miss ↦ rw miss (b.sound c)
          ];
        })

  pub connect_waiting :
      (err : UvError) (a : ℕ) (rest : List ℕ)
      → l.accept_list ≡ a ∷ rest
      → IsBound (record l { accept_list = rest; ops = set_op l.ops a (accept err (l.ops a)) })
  connect_waiting err a rest e =
      let (new, d) : IsDistinct (a ∷ rest) = rw e at b.distinct in
      record {
        counted = b.counted;
        matched = ground (arith, b.matched);
        distinct = d;
        sound = λ c. elim (Bool-cases (c == a)) [
          | inl hit ↦
              let e' : c ≡ a = ground arith in
              let listed : has a l.accept_list ≡ true = ground arith in
              rw (e', same_self a, new) (accept-IsSound (l.ops a) err (rw listed at (b.sound a)))
          | inr miss ↦
              let kept : has c l.accept_list ≡ has c rest = ground arith in
              rw miss (rw kept at (b.sound c))
        ];
      }

  pub stop_listed :
      (a : ℕ)
      → 0 < (l.ops a).stop_op.scheduled
      → IsBound (
          stop_accept a (record l {
            ops = set_op l.ops a (record (l.ops a) { stop_op = take_out (l.ops a).stop_op });
          }))
  unfolding stop_accept
  stop_listed a h = record {
    counted = b.counted;
    matched = ground (arith, b.matched, remove-nil a l.accept_list);
    distinct = remove-IsDistinct a l.accept_list b.distinct;
    sound = λ c. elim (Bool-cases (c == a)) [
      | inl hit ↦
          let e : c ≡ a = ground arith in
          rw (e, same_self a, not-has-remove a l.accept_list b.distinct)
            (stop-IsSound (l.ops a) (has a l.accept_list) (b.sound a) h)
      | inr miss ↦ rw (miss, has-remove-ne c a l.accept_list miss) (b.sound c)
    ];
  }

  pub request_any :
      (a : ℕ)
      → IsBound (record l {
        ops = set_op l.ops a (record (l.ops a) { stop_op = request (l.ops a).stop_op });
      })
  request_any a = record {
    counted = b.counted;
    matched = b.matched;
    distinct = b.distinct;
    sound = λ c. elim (Bool-cases (c == a)) [
      | inl hit ↦
          let e : c ≡ a = ground arith in
          rw (e, same_self a) (request-IsSound (l.ops a) (has a l.accept_list) (b.sound a))
      | inr miss ↦ rw miss (b.sound c)
    ];
  }
