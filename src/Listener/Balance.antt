-- ===== src/Listener/Balance.antt =====
-- What a bound listener counts: PendingConnections and AcceptList against the connections and accepts that came.
use uvexec.Base.{
  ℕ, zero, suc, ◌+◌, ◌≤◌, ◌≡◌, refl, sym, ap, subst, inl, inr, Bool, true, false, none, some, List,
  [], ◌∷◌, arith, if◌then◌else◌, Bool-cases, ℤ, pos, negsuc, is_negative, length, run,
  and_then-eq-some, when-eq-some,
}
use uvexec.Uv.{UvError, is_error}
use uvexec.Listener.Accept.{accept}
use uvexec.IntrusiveList.Chain.{has, remove}
use uvexec.Listener.{
  TcpListener, Answers, Event, begins, connects, requests, stops, set_op, set_value,
  connection_callback, stop_accept, register_accept, wait_for_connection, accept_op,
  start_listening, is_positive, step, increment, decrement, bind, unbound,
}
use uvexec.Listener.Invariant.{IsBound}
use uvexec.Listener.Laws.{bound, bound-IsBound, step-IsBound, run-IsBound}

-- `PendingConnections`, where it is not negative.
abbrev pub amount : ℤ → ℕ
amount (pos n) = n
amount (negsuc n) = 0

-- The connections that libuv reports without an error.
abbrev pub reported_by : Event → ℕ
reported_by (connects status err) = if is_error status then 0 else 1
reported_by _ = 0

abbrev pub reported : List Event → ℕ
reported [] = 0
reported (e ∷ es) = reported_by e + reported es

-- The accepts whose sender completed.
abbrev pub begun_by : Event → ℕ
begun_by (begins u a) = 1
begun_by _ = 0

abbrev pub begun : List Event → ℕ
begun [] = 0
begun (e ∷ es) = begun_by e + begun es

-- The accepts that a stop takes out of the list.
abbrev pub withdrawn_by : Event → TcpListener → ℕ
withdrawn_by (stops a) l = if has a l.accept_list then 1 else 0
withdrawn_by _ l = 0

abbrev pub withdrawn : List Event → TcpListener → ℕ
withdrawn [] l = 0
withdrawn (e ∷ es) l = withdrawn_by e l + elim (step e l) [ none ↦ 0 | some t ↦ withdrawn es t ]

length-remove :
    (a : ℕ) (xs : List ℕ) → length (remove a xs) + (if has a xs then 1 else 0) ≡ length xs
length-remove a [] = refl
length-remove a (x ∷ xs) = ground (arith, length-remove a xs)

amount-decrement : (z : ℤ) → is_positive z ≡ true → amount (decrement z) + 1 ≡ amount z
amount-decrement (pos zero) h = absurd (cc)
amount-decrement (pos (suc n)) h = omega arith
amount-decrement (negsuc n) h = absurd (cc)

amount-increment : (z : ℤ) → is_negative z ≡ false → amount (increment z) ≡ amount z + 1
amount-increment (pos n) h = refl
amount-increment (negsuc n) h = absurd (cc)

-- What one event does to the counts.
abbrev Balances : Event → TcpListener → TcpListener → Type 0
Balances e l t =
    (amount t.pending + length l.accept_list + begun_by e
      ≡ amount l.pending + reported_by e + length t.accept_list + withdrawn_by e l)
    × (amount t.pending ≤ amount l.pending + reported_by e)

module _ (l : TcpListener) (b : IsBound l) where
  begins-Balances :
      (u : Answers) (a : ℕ) (t : TcpListener)
      → step (begins u a) l ≡ some t
      → Balances (begins u a) l t
  unfolding step set_value register_accept wait_for_connection accept_op
  begins-Balances u a t h =
      subst (Balances (begins u a) l) (when-eq-some _ _ h).1
        (elim (Bool-cases (is_positive l.pending)) [
          | inl p ↦ rw p (
            omega (arith, amount-decrement l.pending p),
            omega (arith, amount-decrement l.pending p),
          )
          | inr p ↦ rw (p, b.counted) (omega arith, omega arith)
        ])

  counted_connection :
      (status err : UvError) (xs : List ℕ)
      → l.accept_list ≡ xs
      → Balances (connects status err) l (connection_callback status err l)
  unfolding connection_callback accept_op
  counted_connection status err [] e = elim (Bool-cases (is_error status)) [
    | inl bad ↦ rw bad (omega arith, omega arith)
    | inr good ↦
        let up = amount-increment l.pending b.counted in
        let after : TcpListener = record l { accept_list = []; pending = increment l.pending } in
        let emptied : record l { pending = increment l.pending } ≡ after =
          ap (λ xs. record l { accept_list = xs; pending = increment l.pending }) e in
        let now : connection_callback status err l ≡ after = rw (good, e) emptied in
        subst (Balances (connects status err) l) (sym now)
          (rw (good, e) (omega (arith, up), omega (arith, up)))
  ]
  counted_connection status err (a ∷ rest) e = elim (Bool-cases (is_error status)) [
    | inl bad ↦ rw bad (omega arith, omega arith)
    | inr good ↦
        let after = record l { accept_list = rest; ops = set_op l.ops a (accept err (l.ops a)) } in
        let now : connection_callback status err l ≡ after = rw (good, e) refl in
        subst (Balances (connects status err) l) (sym now) (rw (good, e) (omega arith, omega arith))
  ]

  connects-Balances :
      (status err : UvError) (t : TcpListener)
      → step (connects status err) l ≡ some t
      → Balances (connects status err) l t
  unfolding step
  connects-Balances status err t h =
      let same : connection_callback status err l ≡ t = ground arith in
      subst (Balances (connects status err) l) same
        (counted_connection status err l.accept_list refl)

  stops-Balances : (a : ℕ) (t : TcpListener) → step (stops a) l ≡ some t → Balances (stops a) l t
  unfolding step stop_accept
  stops-Balances a t h =
      let same = (when-eq-some _ _ h).1 in
      subst (Balances (stops a) l) same (omega (arith, length-remove a l.accept_list), omega arith)

  step-Balances : (e : Event) (t : TcpListener) → step e l ≡ some t → Balances e l t
  unfolding step
  step-Balances (begins u a) t h = begins-Balances u a t h
  step-Balances (connects status err) t h = connects-Balances status err t h
  step-Balances (requests a) t h = ground arith
  step-Balances (stops a) t h = stops-Balances a t h

run-Balances :
    (es : List Event) (l t : TcpListener)
    → IsBound l
    → run step es l ≡ some t
    → (amount t.pending + length l.accept_list + begun es
        ≡ amount l.pending + reported es + length t.accept_list + withdrawn es l)
      × (amount t.pending ≤ amount l.pending + reported es)
run-Balances [] l t b h =
    subst
      (λ (s : TcpListener).
        (amount s.pending + length l.accept_list + 0
          ≡ amount l.pending + 0 + length s.accept_list + 0)
        × (amount s.pending ≤ amount l.pending + 0))
      (when-eq-some true l h).1 (omega arith, omega arith)
run-Balances (e ∷ es) l t b h =
    let (m, first, rest) = and_then-eq-some (step e l) (run step es) h in
    let one = step-Balances l b e m first in
    let more = run-Balances es m t (step-IsBound l b e m first) rest in
    rw first (omega (arith, one, more), omega (arith, one, more))

-- After `Bind`, whatever the loop, libuv and other threads do: each accept is in the list at most once, and its receiver
-- is completed at most once; while PendingConnections counts a connection, the list is empty; PendingConnections is not
-- negative and at most the number of the connections that libuv reported; and these connections and PendingConnections
-- say how many accepts are in the list: with those connections, those accepts and the ones that a stop took out of the
-- list, there are as many as the accepts that began and the connections that are counted.
pub bound-run-IsBound :
    (backlog : ℕ) (requested : ℕ → Bool) (es : List Event) (t : TcpListener)
    → run step es (bound backlog requested) ≡ some t
    → IsBound t
      × (amount t.pending + begun es
          ≡ reported es + length t.accept_list + withdrawn es (bound backlog requested))
      × (amount t.pending ≤ reported es)
unfolding bound bind unbound start_listening is_error
bound-run-IsBound backlog requested es t h =
    let start = bound-IsBound backlog requested in
    let counts = run-Balances es (bound backlog requested) t start h in
    (
      run-IsBound es (bound backlog requested) t start h,
      omega (arith, counts),
      omega (arith, counts),
    )
