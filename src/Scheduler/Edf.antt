-- ===== src/Scheduler/Edf.antt =====
-- core/components/src/scheduler/edf_scheduler.cpp: `EDFSchedulerImpl`, one call at a time, and one turn
-- of a worker's loop as a call. What the clock reads, whether a task's function throws and whether a
-- lock is free are arguments; the calls of the user's callbacks are part of the result, in order.
-- Logging, the threads, their affinity and their wake-ups are left out, and so are periodic tasks, whose
-- functions submit the next instance inside a turn.
pub mod Calls
pub mod Accounts
pub mod Runs
use ipb.Base.{
  ℕ, ◌+◌, ◌%◌, ◌^◌, max, Bool, true, false, ◌&&◌, not, List, [], ◌∷◌, ◌++◌, Option, none, some,
  if◌then◌else◌, ltb, leb, ◌==◌, length,
}
use ipb.Base.Int.{ℤ, pos, ◌+ℤ◌, ◌-ℤ◌, ltb_ℤ, leb_ℤ}
use ipb.Scheduler.Queue.{
  TaskState, pending, running, completed, cancelled, failed, deadline_missed, ScheduledTask,
  TaskQueue, push, pop, try_pop, remove,
}

abbrev pub int64_max : ℤ
int64_max = pos 9223372036854775807

-- `EDFSchedulerStats`; the counts are on uint64_t.
pub record Stats : Type 0 where
  pub tasks_submitted : ℕ
  pub tasks_completed : ℕ
  pub tasks_cancelled : ℕ
  pub tasks_failed : ℕ
  pub deadlines_met : ℕ
  pub deadlines_missed : ℕ
  pub current_queue_size : ℕ
  pub peak_queue_size : ℕ
  pub min_latency_ns : ℤ
  pub max_latency_ns : ℤ
  pub total_latency_ns : ℤ
  pub min_execution_ns : ℤ
  pub max_execution_ns : ℤ
  pub total_execution_ns : ℤ

-- `EDFSchedulerStats::reset`, and the values that they start with.
abbrev pub zero_stats : Stats
zero_stats = record {
  tasks_submitted = 0;
  tasks_completed = 0;
  tasks_cancelled = 0;
  tasks_failed = 0;
  deadlines_met = 0;
  deadlines_missed = 0;
  current_queue_size = 0;
  peak_queue_size = 0;
  min_latency_ns = int64_max;
  max_latency_ns = pos 0;
  total_latency_ns = pos 0;
  min_execution_ns = int64_max;
  max_execution_ns = pos 0;
  total_execution_ns = pos 0;
}

pub record Scheduler : Type 0 where
  pub enable_miss_callbacks : Bool
  pub enable_timing : Bool
  pub has_miss_callback : Bool
  pub is_running : Bool
  pub stop_requested : Bool
  pub queue : TaskQueue
  pub next_task_id : ℕ
  pub stats : Stats
  pub completed_states : List (ℕ × TaskState)

-- The calls of `deadline_miss_callback_` and of a task's `completion_callback`.
pub data Event : Type 0 where
  missed : ScheduledTask → Event
  finished : ℕ → TaskState → ℤ → Event

abbrev when : Bool → Event → List Event
when true e = e ∷ []
when false e = []

abbrev increment : ℕ → ℕ
increment n = (n + 1) % 2 ^ 64

abbrev pub fresh : Bool → Bool → ℕ → Scheduler
fresh enable_miss_callbacks enable_timing max_queue_size = record {
  enable_miss_callbacks = enable_miss_callbacks;
  enable_timing = enable_timing;
  has_miss_callback = false;
  is_running = false;
  stop_requested = false;
  queue = record { max_size = max_queue_size; tasks = [] };
  next_task_id = 1;
  stats = zero_stats;
  completed_states = [];
}

-- `start` returns false if the scheduler runs already.
pub start : Scheduler → Bool × Scheduler
start s =
    if s.is_running
    then (false, s)
    else (true, record s { is_running = true; stop_requested = false })

-- `stop` leaves the queue as it is.
pub stop : Scheduler → Scheduler
stop s = if s.is_running then record s { is_running = false; stop_requested = true } else s

unfoldable pub count_missed : Stats → Stats
count_missed c = record c { deadlines_missed = increment c.deadlines_missed }

unfoldable pub count_cancelled : Stats → Stats
count_cancelled c = record c { tasks_cancelled = increment c.tasks_cancelled }

-- `stop_immediate` pops every pending task and cancels it.
pub cancel_all : List ScheduledTask → Stats → Stats × List Event
cancel_all [] c = (c, [])
cancel_all (t ∷ tasks) c =
    let rest = cancel_all tasks (count_cancelled c) in
    (rest.0, when t.has_callback (finished t.id cancelled (pos 0)) ++ rest.1)

pub stop_immediate : Scheduler → Scheduler × List Event
stop_immediate s =
    let done = cancel_all s.queue.tasks s.stats in
    (
      record s {
        stop_requested = true;
        is_running = false;
        queue = record s.queue { tasks = [] };
        stats = done.0;
      },
      done.1,
    )

-- `reset_stats` and `set_deadline_miss_callback`
unfoldable pub reset_stats : Scheduler → Scheduler
reset_stats s = record s { stats = zero_stats }

unfoldable pub set_deadline_miss_callback : Bool → Scheduler → Scheduler
set_deadline_miss_callback has_callback s = record s { has_miss_callback = has_callback }

-- `SubmitResult`, one constructor for each way out of `submit`; the id is `task_id`.
pub data SubmitResult : Type 0 where
  success : ℕ → SubmitResult
  not_running : SubmitResult
  already_passed : ℕ → SubmitResult
  queue_full : SubmitResult

-- The counts after a task went into the queue.
unfoldable pub count_submitted : ℕ → Stats → Stats
count_submitted size c = record c {
  tasks_submitted = increment c.tasks_submitted;
  current_queue_size = size;
  peak_queue_size = max c.peak_queue_size size;
}

abbrev enqueued : ℕ → Bool × TaskQueue → Scheduler → SubmitResult × Scheduler × List Event
enqueued id (true, q) s =
    (success id, record s { queue = q; stats = count_submitted (length q.tasks) s.stats }, [])
enqueued id (false, q) s = (queue_full, s, [])

-- `submit`, at the time `now`. Whatever the overflow policy, a task for which there is no room is refused.
pub submit : ℤ → ScheduledTask → Scheduler → SubmitResult × Scheduler × List Event
submit now task s =
    let id = s.next_task_id in
    let t = record task { id = id; arrival_time = now; state = pending } in
    let s1 = record s { next_task_id = increment id } in
    let late = record t { state = deadline_missed } in
    if not s.is_running
    then (not_running, s, [])
    else if leb_ℤ t.deadline now
    then (
      already_passed id,
      record s1 { stats = count_missed s1.stats },
      when s.has_miss_callback (missed late)
          ++ when t.has_callback (finished id deadline_missed (pos 0)),
    )
    else enqueued id (push t s1.queue) s1

-- `cancel`
abbrev withdrawn : Bool × TaskQueue → Scheduler → Bool × Scheduler
withdrawn (true, q) s = (
  true,
  record s {
    queue = q;
    stats = record (count_cancelled s.stats) { current_queue_size = length q.tasks };
  },
)
withdrawn (false, q) s = (false, record s { queue = q })

pub cancel : ℕ → Scheduler → Bool × Scheduler
cancel id s = withdrawn (remove id s.queue) s

-- `update_latency_stats` and `update_execution_stats`: `fetch_add`, and the loops that lower the minimum
-- and raise the maximum.
unfoldable pub update_latency_stats : ℤ → Stats → Stats
update_latency_stats ns c = record c {
  total_latency_ns = c.total_latency_ns +ℤ ns;
  min_latency_ns = if ltb_ℤ ns c.min_latency_ns then ns else c.min_latency_ns;
  max_latency_ns = if ltb_ℤ c.max_latency_ns ns then ns else c.max_latency_ns;
}

unfoldable pub update_execution_stats : ℤ → Stats → Stats
update_execution_stats ns c = record c {
  total_execution_ns = c.total_execution_ns +ℤ ns;
  min_execution_ns = if ltb_ℤ ns c.min_execution_ns then ns else c.min_execution_ns;
  max_execution_ns = if ltb_ℤ c.max_execution_ns ns then ns else c.max_execution_ns;
}

abbrev max_history : ℕ
max_history = 10000

-- `completed_states_[task_id] = state`
abbrev put : ℕ → TaskState → List (ℕ × TaskState) → List (ℕ × TaskState)
put id state [] = (id, state) ∷ []
put id state ((k, v) ∷ states) =
    let rest = put id state states in if k == id then (k, state) ∷ states else (k, v) ∷ rest

-- `record_completed` forgets the whole history when it is full.
unfoldable pub record_completed : ℕ → TaskState → Scheduler → Scheduler
record_completed id state s = record s {
  completed_states =
      put id state (if leb max_history (length s.completed_states) then [] else s.completed_states);
}

-- `get_task_state`
abbrev lookup : ℕ → List (ℕ × TaskState) → Option TaskState
lookup id [] = none
lookup id ((k, v) ∷ states) = let rest = lookup id states in if k == id then some v else rest

unfoldable pub get_task_state : ℕ → Scheduler → Option TaskState
get_task_state id s = lookup id s.completed_states

-- One turn of a worker: whether it gets the queue's lock, the time at which it looks at the task, whether
-- the function returns, how long it runs, and the time after it.
pub record Turn : Type 0 where
  pub owns_lock : Bool
  pub now : ℤ
  pub returns : Bool
  pub exec_time : ℤ
  pub finish_time : ℤ

-- A task whose deadline has passed is not run.
unfoldable pub skip : Turn → ScheduledTask → Scheduler → Scheduler × List Event
skip x t s =
    let late = record t { state = deadline_missed } in
    (
      record_completed t.id deadline_missed (record s { stats = count_missed s.stats }),
      when (s.enable_miss_callbacks && s.has_miss_callback) (missed late)
          ++ when t.has_callback (finished t.id deadline_missed (x.now -ℤ t.arrival_time)),
    )

unfoldable pub count_outcome : Bool → Stats → Stats
count_outcome returns c =
    if returns
    then record c { tasks_completed = increment c.tasks_completed }
    else record c { tasks_failed = increment c.tasks_failed }

unfoldable pub count_deadline : Bool → Stats → Stats
count_deadline met c =
    if met then record c { deadlines_met = increment c.deadlines_met } else count_missed c

unfoldable pub count_times : Bool → ℤ → ℤ → Stats → Stats
count_times timing latency exec_time c =
    if timing then update_execution_stats exec_time (update_latency_stats latency c) else c

-- The other tasks are run.
unfoldable pub execute : Turn → ScheduledTask → Scheduler → Scheduler × List Event
execute x t s =
    let state = if x.returns then completed else failed in
    let met = leb_ℤ x.finish_time t.deadline in
    let done = record t { state = state; execution_time = x.exec_time; deadline_met = met } in
    let c = count_deadline met (count_outcome x.returns s.stats) in
    (
      record_completed t.id state (record s {
        stats = count_times s.enable_timing (x.now -ℤ t.arrival_time) x.exec_time c;
      }),
      when (not met && (s.enable_miss_callbacks && s.has_miss_callback)) (missed done)
          ++ when t.has_callback (finished t.id state x.exec_time),
    )

abbrev handle : Turn → Option ScheduledTask × TaskQueue → Scheduler → Scheduler × List Event
handle x (none, q) s = (s, [])
handle x (some t, q) s =
    let s1 = record s {
      queue = q;
      stats = record s.stats { current_queue_size = length q.tasks };
    } in
    if ltb_ℤ t.deadline x.now then skip x t s1 else execute x t s1

-- `worker_loop`, from one test of `stop_requested_` to the next.
pub worker_turn : Turn → Scheduler → Scheduler × List Event
worker_turn x s = if s.stop_requested then (s, []) else handle x (try_pop x.owns_lock s.queue) s
