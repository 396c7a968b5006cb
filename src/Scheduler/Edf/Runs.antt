-- ===== src/Scheduler/Edf/Runs.antt =====
-- The accounts of `EDFSchedulerImpl` (edf_scheduler.cpp) over a run.
use ipb.Base.{ℕ, ◌+◌, ◌^◌, ◌≤◌, ◌<◌, Bool, List, [], ◌∷◌, length, arith}
use ipb.Base.Int.{ℤ}
use ipb.Scheduler.Queue.{ScheduledTask, push, pop, try_pop}
use ipb.Scheduler.Edf.{
  Scheduler, start, stop, stop_immediate, record_completed, skip, execute, submit, cancel,
  worker_turn, Turn, reset_stats, set_deadline_miss_callback,
}
use ipb.Scheduler.Edf.Calls.{
  Call, starting, stopping, stopping_now, submitting, cancelling, turning, resetting,
  setting_callback, step, run, uncounted, run_uncounted, Accounts,
}
use ipb.Scheduler.Edf.Accounts.{
  start-Accounts, stop-Accounts, stop_immediate-Accounts, cancel-Accounts, submit-Accounts,
  worker_turn-Accounts,
}

-- After a reset the pending tasks are what there is to account for.
reset_stats-Accounts :
    (n : ℕ) (s : Scheduler) → Accounts n s → Accounts (length s.queue.tasks) (reset_stats s)
unfolding reset_stats
reset_stats-Accounts n s a = record {
  ordered = a.ordered;
  distinct = a.distinct;
  given = a.given;
  balance = omega arith;
}

set_deadline_miss_callback-Accounts :
    (n : ℕ) (b : Bool) (s : Scheduler) → Accounts n s → Accounts n (set_deadline_miss_callback b s)
unfolding set_deadline_miss_callback
set_deadline_miss_callback-Accounts n b s a = record {
  ordered = a.ordered;
  distinct = a.distinct;
  given = a.given;
  balance = a.balance;
}

step-Accounts :
    (n : ℕ) (c : Call) (s : Scheduler)
    → Accounts n s
    → s.next_task_id + 1 < 2 ^ 64
    → Accounts (uncounted c s n) (step c s)
step-Accounts n starting s a small = start-Accounts n s a
step-Accounts n stopping s a small = stop-Accounts n s a
step-Accounts n stopping_now s a small = stop_immediate-Accounts n s a
step-Accounts n resetting s a small = reset_stats-Accounts n s a
step-Accounts n (setting_callback b) s a small = set_deadline_miss_callback-Accounts n b s a
step-Accounts n (submitting now t) s a small = submit-Accounts n now t s a small
step-Accounts n (cancelling id) s a small = cancel-Accounts n id s a
step-Accounts n (turning x) s a small = worker_turn-Accounts n x s a

submit-next :
    (now : ℤ) (task : ScheduledTask) (s : Scheduler)
    → (submit now task s).1.next_task_id ≤ s.next_task_id + 1
unfolding submit push
submit-next now task s = ground arith

worker_turn-next :
    (x : Turn) (s : Scheduler) → (worker_turn x s).0.next_task_id ≤ s.next_task_id + 1
unfolding worker_turn try_pop pop skip execute record_completed
worker_turn-next x s = ground arith

step-next : (c : Call) (s : Scheduler) → (step c s).next_task_id ≤ s.next_task_id + 1
unfolding start stop stop_immediate cancel reset_stats set_deadline_miss_callback
step-next starting s = ground arith
step-next stopping s = ground arith
step-next stopping_now s = omega arith
step-next resetting s = omega arith
step-next (setting_callback b) s = omega arith
step-next (submitting now t) s = submit-next now t s
step-next (cancelling id) s = ground arith
step-next (turning x) s = worker_turn-next x s

-- The accounts balance after any calls one after another, resets included and periodic tasks aside, with
-- the late submissions and the tasks pending at the last reset counted, as long as the ids last: each call
-- gives out at most one, of 2^64.
pub run-Accounts :
    (n : ℕ) (calls : List Call) (s : Scheduler)
    → Accounts n s
    → s.next_task_id + length calls < 2 ^ 64
    → Accounts (run_uncounted calls s n) (run calls s)
run-Accounts n [] s a small = a
run-Accounts n (c ∷ calls) s a small =
    let next = step-next c s in
    run-Accounts (uncounted c s n) calls (step c s) (step-Accounts n c s a (omega arith))
      (omega arith)
