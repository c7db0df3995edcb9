-- ===== src/SyncWait/Laws.antt =====
-- What sync_wait returns.
use uvexec.Base.{ℕ, ◌≡◌, refl, none, some, List}
use uvexec.SyncWait.{
  Error, new, set_value, set_error, set_stopped, unwrap, raises, returns_nothing, returns,
  to_exception, current,
}

-- sync_wait returns the values, throws the error as an exception, and returns nothing for a stop, and the waiting
-- thread is woken up once; but where the construction of the values throws, sync_wait throws that
-- exception and the thread is woken up twice.
pub sync_wait_result :
    (vs : List ℕ) (n : ℕ) (e : Error)
    → let value = set_value vs none new in
      let thrown = set_value vs (some n) new in
      let error = set_error e new in
      let stop = set_stopped new in
      (unwrap value.destination ≡ returns vs)
      × (unwrap thrown.destination ≡ raises (current n))
      × (unwrap error.destination ≡ raises (to_exception e))
      × (unwrap stop.destination ≡ returns_nothing)
      × (value.wakeups ≡ 1)
      × (thrown.wakeups ≡ 2)
      × (error.wakeups ≡ 1)
      × (stop.wakeups ≡ 1)
unfolding set_value set_error set_stopped unwrap
sync_wait_result vs n e = (refl, refl, refl, refl, refl, refl, refl, refl)
