-- ===== src/EchoUvexec/Laws.antt =====
-- When a Connection of EchoClient is deleted.
use uvexec.Base.{
  ℕ, suc, ◌≤◌, ◌<◌, ◌≡◌, refl, subst, ◌⊎◌, inl, inr, Bool, true, false, ◌&&◌, some, List, arith,
  ltb, Bool-cases, All, run, when-eq-some, and-eq-true, run-keeps,
}
use uvexec.EchoUv.Client.{minus, is_positive}
use uvexec.EchoUvexec.{
  EchoClient, Stage, sending, joining, finished, is_sending, is_joining, World, process_connection,
  finish_connection, Event, received, receive_failed, sent, send_failed, emptied, step,
}

abbrev is_finished : Stage → Bool
is_finished finished = true
is_finished _ = false

-- Before the end nothing is deleted, and at the end one delete found `Scope` empty.
abbrev Fits : World → Type 0
Fits w =
    (w.connection.deleted_busy ≡ false)
    × (((is_finished w.connection.stage ≡ false) × (w.connection.deletes ≡ 0))
        ⊎ ((is_finished w.connection.stage ≡ true)
            × (w.connection.deletes ≡ 1)
            × (w.connection.receives ≡ 0)))

abbrev pub Sends : Event → Type 0
Sends send_failed = ⊥
Sends e = Unit

sending_or_finished : (s : Stage) → is_sending s ≡ true → is_finished s ≡ true → ⊥
sending_or_finished sending h f = cc
sending_or_finished joining h f = cc
sending_or_finished finished h f = cc

joining_or_finished : (s : Stage) → is_joining s ≡ true → is_finished s ≡ true → ⊥
joining_or_finished sending h f = cc
joining_or_finished joining h f = cc
joining_or_finished finished h f = cc

step-Fits : (e : Event) (w v : World) → Fits w → Sends e → step e w ≡ some v → Fits v
unfolding step
step-Fits (received rd) w v (nb, inr f) s h = absurd (ground (arith, (when-eq-some _ _ h).0, f.2))
step-Fits (received rd) w v (nb, inl f) s h =
    subst Fits (when-eq-some _ _ h).1
      (elim (Bool-cases (ltb 0 rd && is_positive (minus w.connection.data_left rd))) [
        | inl b ↦ rw b (nb, inl f)
        | inr b ↦ rw b (nb, inl f)
      ])
step-Fits receive_failed w v (nb, inr f) s h = absurd (ground (arith, (when-eq-some _ _ h).0, f.2))
step-Fits receive_failed w v (nb, inl f) s h = subst Fits (when-eq-some _ _ h).1 (nb, inl f)
step-Fits sent w v (nb, inr f) s h =
    absurd (sending_or_finished w.connection.stage (when-eq-some _ _ h).0 f.0)
step-Fits sent w v (nb, inl f) s h = subst Fits (when-eq-some _ _ h).1 (nb, inl (refl, f.1))
step-Fits send_failed w v f s h = absurd s
step-Fits emptied w v (nb, inr f) s h =
    absurd (joining_or_finished w.connection.stage (and-eq-true _ _ (when-eq-some _ _ h).0).0 f.0)
step-Fits emptied w v (nb, inl f) s h =
    let t = when-eq-some _ _ h in
    let none_left : w.connection.receives ≡ 0 = ground (arith, t.0) in
    subst Fits t.1 (rw (nb, none_left) (refl, inr (refl, (rw f.1), refl)))

-- Where the send of a connection does not fail: the Connection is deleted at most once, and when it was, no receive of
-- it is under way, then or later.
pub deleted_when_empty :
    (size : ℕ) (e : EchoClient) (es : List Event) (w : World)
    → All Sends es
    → run step es (record { client = e; connection = process_connection size }) ≡ some w
    → (w.connection.deleted_busy ≡ false)
      × (w.connection.deletes ≤ 1)
      × (w.connection.deletes ≡ 1 → w.connection.receives ≡ 0)
unfolding process_connection
deleted_when_empty size e es w s r =
    let start : World = record { client = e; connection = process_connection size } in
    let f = run-keeps step Sends Fits step-Fits es start w (refl, inl (refl, refl)) s r in
    elim f.1 [
      | inl before ↦ (f.0, ground (arith, before.1), λ d. absurd (omega (arith, before.1, d)))
      | inr after ↦ (f.0, ground (arith, after.1), λ d. after.2)
    ]

-- Where the send of a connection fails while a receive is under way, the Connection, whose `Scope` and buffer the
-- receive still refers to, is deleted.
pub failed_send_deletes_busy :
    (w : World)
    → w.connection.stage ≡ sending
    → 0 < w.connection.receives
    → (v : World) × (step send_failed w ≡ some v)
      × (v.connection.deletes ≡ suc w.connection.deletes)
      × (v.connection.deleted_busy ≡ true)
      × (0 < v.connection.receives)
unfolding step finish_connection
failed_send_deletes_busy w s r = (finish_connection w, rw s, refl, ground arith, r)
