-- ===== src/OperationList.antt =====
-- TLoop::TOperationList (loop.cpp): the operations that any thread hands to the loop, a stack that threads push
-- to with compare-exchange and that the loop takes whole. Operations are addresses; nullptr is 0.
pub mod Chain
pub mod Push
pub mod Grab
pub mod Runs
mod Tests
use uvexec.Base.{Bool, not, ◌&&◌, Option, none, some, ◌==◌, if◌then◌else◌}
use uvexec.IntrusiveList.{Ptr, update}

-- Where the thread that schedules an operation stands in `PushBack`, and then where the operation is.
pub data Place : Type 0 where
  outside : Place
  -- `curTop` is read, and `op.Next` not yet set to it
  loaded : (cur_top : Ptr) → Place
  -- before the compare-exchange
  linked : (cur_top : Ptr) → Place
  listed : Place
  -- in the chain that `Grab` took
  taken : Place

pub record Shared : Type 0 where
  -- `Head`
  pub head : Ptr
  -- `Next` of each operation
  pub next : Ptr → Ptr
  pub place : Ptr → Place

abbrev pub move_to : (Ptr → Place) → Ptr → Place → Ptr → Place
move_to f op p a = if a == op then p else f a

-- The atomic steps of `PushBack` and of `Grab`. `spurious` is the failure that a weak exchange may have.
pub data Action : Type 0 where
  load link : (op : Ptr) → Action
  exchange : (op : Ptr) (spurious : Bool) → Action
  grab : Action
  applied : (op : Ptr) → Action

-- `auto curTop = Head.load(...)`
unfoldable pub load_head : Ptr → Shared → Option Shared
load_head op s = elim (s.place op) [
  | outside ↦ some (record s { place = move_to s.place op (loaded s.head) })
  | _ ↦ none
]

-- `op.Next = curTop`
unfoldable pub link_next : Ptr → Shared → Option Shared
link_next op s = elim (s.place op) [
  | loaded cur ↦
      some (record s { next = update s.next op cur; place = move_to s.place op (linked cur) })
  | _ ↦ none
]

-- `Head.compare_exchange_weak(curTop, &op, ...)`: a failure reads `Head` anew.
unfoldable pub compare_exchange : Ptr → Bool → Shared → Option Shared
compare_exchange op spurious s = elim (s.place op) [
  | linked cur ↦ some (
      if s.head == cur && not spurious
      then record s { head = op; place = move_to s.place op listed }
      else record s { place = move_to s.place op (loaded s.head) })
  | _ ↦ none
]

abbrev pub take_listed : Place → Place
take_listed listed = taken
take_listed p = p

-- `Head.exchange(nullptr, ...)`
unfoldable pub grab_head : Shared → Shared
grab_head s = record s { head = 0; place = λ a. take_listed (s.place a) }

-- The loop is done with a taken operation, which may be scheduled again.
unfoldable pub forget : Ptr → Shared → Option Shared
forget op s = elim (s.place op) [
  | taken ↦ some (record s { place = move_to s.place op outside })
  | _ ↦ none
]

unfoldable pub step : Action → Shared → Option Shared
unfolding load_head link_next compare_exchange grab_head forget
step (load op) s = load_head op s
step (link op) s = link_next op s
step (exchange op spurious) s = compare_exchange op spurious s
step grab s = some (grab_head s)
step (applied op) s = forget op s

abbrev pub empty : Shared
empty = record { head = 0; next = λ a. 0; place = λ a. outside }
