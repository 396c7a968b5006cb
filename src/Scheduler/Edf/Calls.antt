-- ===== src/Scheduler/Edf/Calls.antt =====
-- Calls of `EDFSchedulerImpl` (edf_scheduler.cpp) in any order, one after another and periodic tasks aside,
-- and what is to hold of the pending tasks and the counts.
use ipb.Base.{
  ℕ, suc, ◌+◌, ◌%◌, ◌^◌, ◌<◌, ◌≡◌, ◌≢◌, refl, ap, sym, inl, inr, Bool, true, false, List, [], ◌∷◌,
  ◌==◌, length, arith, Bool-cases, All,
}
use ipb.Base.Int.{ℤ}
use ipb.Scheduler.Queue
use ipb.Scheduler.Queue.{
  ScheduledTask, TaskQueue, insert, push, pop, try_pop, remove, take_top, pending,
}
use ipb.Scheduler.Queue.Order.{IsValid, All-insert, All-without, without, has}
use ipb.Scheduler.Edf.{
  Scheduler, start, stop, stop_immediate, submit, SubmitResult, success, not_running,
  already_passed, queue_full, cancel, worker_turn, Turn, reset_stats, set_deadline_miss_callback,
}

-- The calls that change the scheduler, with their arguments.
pub data Call : Type 0 where
  starting : Call
  stopping : Call
  stopping_now : Call
  resetting : Call
  setting_callback : Bool → Call
  submitting : ℤ → ScheduledTask → Call
  cancelling : ℕ → Call
  turning : Turn → Call

abbrev pub step : Call → Scheduler → Scheduler
step starting s = (start s).1
step stopping s = stop s
step stopping_now s = (stop_immediate s).0
step resetting s = reset_stats s
step (setting_callback b) s = set_deadline_miss_callback b s
step (submitting now t) s = (submit now t s).1
step (cancelling id) s = (cancel id s).1
step (turning x) s = (worker_turn x s).0

abbrev pub late_result : SubmitResult → ℕ
late_result (already_passed id) = 1
late_result (success id) = 0
late_result not_running = 0
late_result queue_full = 0

-- The tasks to account for that `tasks_submitted` does not count: a task that comes too late is one more,
-- and from a reset on they are the tasks that it finds pending.
abbrev pub uncounted : Call → Scheduler → ℕ → ℕ
uncounted starting s n = n
uncounted stopping s n = n
uncounted stopping_now s n = n
uncounted resetting s n = length s.queue.tasks
uncounted (setting_callback b) s n = n
uncounted (submitting now t) s n = late_result (submit now t s).0 + n
uncounted (cancelling id) s n = n
uncounted (turning x) s n = n

abbrev pub run : List Call → Scheduler → Scheduler
run [] s = s
run (c ∷ calls) s = run calls (step c s)

-- Those after some calls, of `n` before them.
abbrev pub run_uncounted : List Call → Scheduler → ℕ → ℕ
run_uncounted [] s n = n
run_uncounted (c ∷ calls) s n = run_uncounted calls (step c s) (uncounted c s n)

abbrev pub Distinct : List ScheduledTask → Type 0
Distinct [] = Unit
Distinct (t ∷ tasks) = All (λ u. u.id ≢ t.id) tasks × Distinct tasks

-- The queue is valid; the ids of its tasks differ and were given out before; and every task that was
-- submitted since the last reset, came too late since then or was pending at it (there were `n` of the
-- latter two) is pending, or was since then cancelled, or met or missed its deadline. The counts are
-- compared as 64-bit numbers.
pub record Accounts (n : ℕ) (s : Scheduler) : Type 0 where
  pub ordered : IsValid s.queue
  pub distinct : Distinct s.queue.tasks
  pub given : All (λ t. t.id < s.next_task_id) s.queue.tasks
  pub balance :
      (s.stats.tasks_submitted + n) % 2 ^ 64
      ≡ (length s.queue.tasks
          + s.stats.tasks_cancelled
          + s.stats.deadlines_met
          + s.stats.deadlines_missed)
        % 2 ^ 64

pub insert-Distinct :
    (t : ScheduledTask) (tasks : List ScheduledTask)
    → All (λ u. u.id ≢ t.id) tasks
    → Distinct tasks
    → Distinct (insert t tasks)
unfolding insert
insert-Distinct t [] h d = (tt, tt)
insert-Distinct t (u ∷ tasks) h d = elim (Bool-cases (Queue.is_later u t)) [
  | inl e ↦ rw e (h, d)
  | inr e ↦ rw e (
    All-insert (λ x. x.id ≢ u.id) t tasks (λ k. h.0 (sym k)) d.0,
    insert-Distinct t tasks h.1 d.1,
  )
]

pub without-Distinct :
    (id : ℕ) (tasks : List ScheduledTask) → Distinct tasks → Distinct (without id tasks)
without-Distinct id [] d = tt
without-Distinct id (t ∷ tasks) d = elim (Bool-cases (t.id == id)) [
  | inl e ↦ rw e (without-Distinct id tasks d.1)
  | inr e ↦ rw e (All-without _ id tasks d.0, without-Distinct id tasks d.1)
]

-- Where the ids differ, at most one task goes.
without-none :
    (id : ℕ) (tasks : List ScheduledTask)
    → All (λ u. u.id ≢ id) tasks
    → length (without id tasks) ≡ length tasks
without-none id [] h = refl
without-none id (t ∷ tasks) h =
    let ne : (t.id == id) ≡ false = ground (arith, h.0) in
    rw ne (ap suc (without-none id tasks h.1))

abbrev pub taken : Bool → ℕ
taken true = 1
taken false = 0

pub length-without-has :
    (id : ℕ) (tasks : List ScheduledTask)
    → Distinct tasks
    → taken (has id tasks) + length (without id tasks) ≡ length tasks
length-without-has id [] d = refl
length-without-has id (t ∷ tasks) d = elim (Bool-cases (t.id == id)) [
  | inl e ↦
      let k : t.id ≡ id = ground arith in rw e (omega (arith, without-none id tasks (rw (← k) d.0)))
  | inr e ↦ rw e (omega (arith, length-without-has id tasks d.1))
]
