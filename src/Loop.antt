-- ===== src/Loop.antt =====
-- TRunner and TRunnersQueue (src/execution/runner.cpp), TLoop::run, run_once and drain, which are the same but for the mode
-- of uv_run, and TLoop::RunnerSteal (src/execution/loop.cpp), in which sync_wait waits (execution/loop.hpp). Threads
-- interleave; they and their runners are named by numbers.
pub mod Exclusive
pub mod Exclusion
pub mod Waiting
pub mod Steal
pub mod Finish
pub mod Quiet
pub mod Stale
pub mod Wakeup
mod Tests
use uvexec.Base.{
  ℕ, ◌+◌, Bool, true, false, not, ◌||◌, Option, none, some, List, [], ◌∷◌, ◌==◌, if◌then◌else◌,
}
use uvexec.IntrusiveList.Chain.{remove}

-- Where a thread stands in `run`, or in `RunnerSteal`.
pub data Place : Type 0 where
  -- of RunnerSteal: before the test of `runner.Finished()`
  checking : Place
  -- before `std::unique_lock lock(RunMtx)`
  entering : Place
  -- with the mutex, before the test of `Running`
  entered : Place
  -- in uv_run
  executing : Place
  -- back from uv_run, before `lock.lock()`
  returning : Place
  -- with the mutex, before `Running = false` and `WakeupNext`
  leaving : Place
  -- in the queue, before the first load of `Wait`
  queued : Place
  -- in the loop of `Wait`, which loaded this value first
  sleeping : ℕ → Place
  -- out of `Wait`, before `lock.lock()`
  rejoining : Place
  -- with the mutex, before `Runners.Erase`
  erasing : Place
  returned : Place

pub record Loop : Type 0 where
  -- `Running`
  pub running : Bool
  -- `RunMtx` is held
  pub locked : Bool
  -- `Runners`, the head first
  pub runners : List ℕ
  -- `Awakenings` and `Acq` of each thread's runner
  pub awakenings : ℕ → ℕ
  pub acquired : ℕ → Bool
  -- uv_stop was called during this uv_run
  pub stopping : Bool
  -- the threads that are in sync_wait, and so in RunnerSteal
  pub steals : ℕ → Bool
  pub place : ℕ → Place

-- Before any thread runs the loop.
abbrev pub new : (ℕ → Bool) → Loop
new steals = record {
  running = false;
  locked = false;
  runners = [];
  awakenings = λ t. 1;
  acquired = λ t. false;
  stopping = false;
  steals = steals;
  place = λ t. if steals t then checking else entering;
}

-- `TRunner::Finished`
abbrev pub finished : ℕ → Bool
finished awakenings = awakenings == 0

-- `TRunner::Wakeup`
abbrev pub wakeup : (ℕ → ℕ) → ℕ → ℕ → ℕ
wakeup f t u = if u == t then f u + 1 else f u

-- `TRunnersQueue::WakeupNext`: the runners that stay in the queue, and `Awakenings`.
unfoldable pub wakeup_next : List ℕ → (ℕ → ℕ) → List ℕ × (ℕ → ℕ)
wakeup_next [] f = ([], f)
wakeup_next (t ∷ ts) f = if finished (f t) then wakeup_next ts f else (ts, wakeup f t)

abbrev pub go : Loop → ℕ → Place → ℕ → Place
go l t p u = if u == t then p else l.place u

abbrev pub put {ℓ} : {A : Type ℓ} → (ℕ → A) → ℕ → A → ℕ → A
put f t a u = if u == t then a else f u

-- RunnerSteal goes on with its loop where run goes to `p`.
abbrev pub resume : Loop → ℕ → Place → Place
resume l t p = if l.steals t then checking else p

-- `TRunner::AcquireIfNotFinished`: what it returns, and sets `Acq` to.
unfoldable pub acquire_if_not_finished : ℕ → Loop → Bool
acquire_if_not_finished t l = if finished (l.awakenings t) then l.acquired t else true

-- Where the loop is not running, with the mutex: `run` and RunnerSteal run it, but the latter only if its runner is not
-- finished, or was not when it ran the loop before.
unfoldable pub run_or_pass : ℕ → Loop → Loop
unfolding acquire_if_not_finished wakeup_next
run_or_pass t l =
    if not (l.steals t)
    then record l { locked = false; running = true; place = go l t executing }
    else (if acquire_if_not_finished t l
        then record l {
          locked = false;
          running = true;
          acquired = put l.acquired t true;
          place = go l t executing;
        }
        else (let (rest, awakenings) = wakeup_next l.runners l.awakenings in
            record l {
              locked = false;
              runners = rest;
              awakenings = awakenings;
              place = go l t checking;
            }))

-- A thread takes the mutex.
unfoldable pub acquire : ℕ → Loop → Option Loop
acquire t l = if l.locked then none else (elim (l.place t) [
  | entering ↦ some (record l { locked = true; place = go l t entered })
  | returning ↦ some (record l { locked = true; place = go l t leaving })
  | rejoining ↦ some (record l { locked = true; place = go l t erasing })
  | _ ↦ none
])

-- What a thread does with the mutex, up to its release.
unfoldable pub proceed : ℕ → Loop → Option Loop
unfolding wakeup_next run_or_pass
proceed t l = elim (l.place t) [
  | entered ↦ some (
      if l.running
      then record l { locked = false; runners = t ∷ l.runners; place = go l t queued }
      else run_or_pass t l)
  | leaving ↦
      let (rest, awakenings) = wakeup_next l.runners l.awakenings in
      some (record l {
        locked = false;
        running = false;
        runners = rest;
        awakenings = awakenings;
        place = go l t (resume l t returned);
      })
  | erasing ↦ some (record l {
    locked = false;
    runners = remove t l.runners;
    place = go l t (resume l t entering);
  })
  | _ ↦ none
]

-- What a thread does without the mutex: uv_run returns, `Wait` loads `Awakenings`, `Wait` returns,
-- RunnerSteal tests its runner.
unfoldable pub advance : ℕ → Loop → Option Loop
advance t l = elim (l.place t) [
  | executing ↦ some (record l { stopping = false; place = go l t returning })
  | checking ↦
      if finished (l.awakenings t)
      then some (record l { place = go l t returned })
      else some (record l { place = go l t entering })
  | queued ↦ some (record l { place = go l t (sleeping (l.awakenings t)) })
  | sleeping w ↦
      if w == 0 || not (l.awakenings t == w)
      then some (record l { place = go l t rejoining })
      else none
  | _ ↦ none
]

-- The sender of the sync_wait of thread `t` completes, on the thread `u`: sync_wait's receiver stops the loop if its
-- runner acquired it, and finishes the runner. It completes in uv_run, or when its thread starts it.
unfoldable pub wakeup_receiver : ℕ → ℕ → Loop → Option Loop
wakeup_receiver u t l =
    let done = record l {
      awakenings = put l.awakenings t 0;
      stopping = if l.acquired t then true else l.stopping;
    } in
    if not (l.steals t) || finished (l.awakenings t) then none else (elim (l.place u) [
      | executing ↦ some done
      | checking ↦ if u == t then some done else none
      | _ ↦ none
    ])

pub data Event : Type 0 where
  acquires proceeds advances : ℕ → Event
  completes : (u t : ℕ) → Event

unfoldable pub step : Event → Loop → Option Loop
unfolding acquire proceed advance wakeup_receiver
step (acquires t) l = acquire t l
step (proceeds t) l = proceed t l
step (advances t) l = advance t l
step (completes u t) l = wakeup_receiver u t l
