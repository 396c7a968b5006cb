-- ===== src/Scheduler/Queue.antt =====
-- core/components/src/scheduler/task_queue.cpp: `TaskQueue`, with `ScheduledTask` of
-- core/components/include/ipb/core/scheduler/edf_scheduler.hpp. The `std::priority_queue` is the list of
-- its tasks in the order in which it gives them out; of two tasks that neither is ahead of, where the
-- standard leaves the order open, the older one goes first.
pub mod Order
pub mod Calls
use ipb.Base.{
  ℕ, ◌+◌, ◌≡◌, Bool, true, false, not, List, [], ◌∷◌, Option, none, some, if◌then◌else◌, ltb, leb,
  ◌==◌, length,
}
use ipb.Base.Int.{ℤ, pos, ltb_ℤ, eqb_ℤ}

pub data TaskState : Type 0 where
  pending : TaskState
  running : TaskState
  completed : TaskState
  cancelled : TaskState
  failed : TaskState
  deadline_missed : TaskState

-- The task's function and callback are not data: `has_callback` says that there is one.
pub record ScheduledTask : Type 0 where
  pub id : ℕ
  pub deadline : ℤ
  pub arrival_time : ℤ
  pub priority : ℕ
  pub has_callback : Bool
  pub state : TaskState
  pub execution_time : ℤ
  pub deadline_met : Bool

-- `operator>`: a later deadline, or the same deadline and a lower priority.
unfoldable pub is_later : ScheduledTask → ScheduledTask → Bool
is_later a b =
    if eqb_ℤ a.deadline b.deadline then ltb a.priority b.priority else ltb_ℤ b.deadline a.deadline

pub record TaskQueue : Type 0 where
  pub max_size : ℕ
  pub tasks : List ScheduledTask

-- `queue_.push`
unfoldable pub insert : ScheduledTask → List ScheduledTask → List ScheduledTask
insert t [] = t ∷ []
insert t (u ∷ tasks) = let rest = insert t tasks in if is_later u t then t ∷ u ∷ tasks else u ∷ rest

-- `push` returns whether there was room.
unfoldable pub push : ScheduledTask → TaskQueue → Bool × TaskQueue
push t q =
    if leb q.max_size (length q.tasks)
    then (false, q)
    else (true, record q { tasks = insert t q.tasks })

abbrev pub take_top : ℕ → List ScheduledTask → Option ScheduledTask × TaskQueue
take_top max_size [] = (none, record { max_size = max_size; tasks = [] })
take_top max_size (t ∷ tasks) = (some t, record { max_size = max_size; tasks = tasks })

-- `pop`
unfoldable pub pop : TaskQueue → Option ScheduledTask × TaskQueue
pop q = take_top q.max_size q.tasks

-- `try_pop`: as `pop` if it gets the lock, else false.
unfoldable pub try_pop : Bool → TaskQueue → Option ScheduledTask × TaskQueue
try_pop owns_lock q = if owns_lock then pop q else (none, q)

abbrev pub top : List ScheduledTask → Option ScheduledTask
top [] = none
top (t ∷ tasks) = some t

-- `peek`
unfoldable pub peek : TaskQueue → Option ScheduledTask
peek q = top q.tasks

abbrev pub deadline_of : Option ScheduledTask → Option ℤ
deadline_of none = none
deadline_of (some t) = some t.deadline

-- `nearest_deadline`
unfoldable pub nearest_deadline : TaskQueue → Option ℤ
nearest_deadline q = deadline_of (peek q)

-- The first loop of `remove` takes every task out of the queue and keeps those of other ids.
unfoldable pub drain : ℕ → List ScheduledTask → Bool × List ScheduledTask
drain id [] = (false, [])
drain id (t ∷ tasks) =
    let rest = drain id tasks in if t.id == id then (true, rest.1) else (rest.0, t ∷ rest.1)

-- Its second loop pushes them again.
unfoldable pub rebuild : List ScheduledTask → List ScheduledTask → List ScheduledTask
rebuild [] tasks = tasks
rebuild (t ∷ kept) tasks = rebuild kept (insert t tasks)

-- `remove` returns whether a task was found.
pub remove : ℕ → TaskQueue → Bool × TaskQueue
remove id q =
    let drained = drain id q.tasks in (drained.0, record q { tasks = rebuild drained.1 [] })

unfoldable pub clear : TaskQueue → TaskQueue
clear q = record q { tasks = [] }
