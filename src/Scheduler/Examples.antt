-- ===== src/Scheduler/Examples.antt =====
-- The laws of core/components/src/scheduler at concrete inputs.
use ipb.Base.{ℕ, ◌≤◌, refl, length, true, false, List, [], ◌∷◌, arith}
use ipb.Base.Int.{pos}
use ipb.Scheduler.Queue
use ipb.Scheduler.Queue.{ScheduledTask, TaskQueue, is_later, push, pop}
use ipb.Scheduler.Queue.Calls
use ipb.Scheduler.Queue.Calls.{Popped, pop-earliest}
use ipb.Scheduler.Edf.{fresh, Turn}
use ipb.Scheduler.Edf.Calls.{
  Call, starting, stopping, submitting, cancelling, turning, resetting, run, run_uncounted,
  Accounts,
}
use ipb.Scheduler.Edf.Runs.{run-Accounts}

abbrev task : ℕ → ℕ → ℕ → ScheduledTask
task id deadline priority = record {
  id = id;
  deadline = pos deadline;
  arrival_time = pos 0;
  priority = priority;
  has_callback = true;
  state = Queue.pending;
  execution_time = pos 0;
  deadline_met = false;
}

-- Four tasks are pushed and one of them is taken out again.
abbrev queue_calls : List Calls.Call
queue_calls =
    Calls.pushing (task 3 25 255)
    ∷ (Calls.pushing (task 1 10 128)
        ∷ (Calls.pushing (task 2 10 192)
            ∷ (Calls.pushing (task 4 5 0) ∷ (Calls.popping ∷ (Calls.removing 7 ∷ [])))))

abbrev three : TaskQueue
three = Calls.run queue_calls (Calls.new 4)

pop-earliest_example : Popped (pop three) three.tasks × (length three.tasks ≤ three.max_size)
pop-earliest_example = pop-earliest 4 queue_calls

abbrev turn : Turn
turn = record {
  owns_lock = true;
  now = pos 5;
  returns = true;
  exec_time = pos 3;
  finish_time = pos 8;
}

-- Two tasks in time and one too late; a reset with both pending; one of them is run, the other cancelled.
abbrev calls : List Call
calls =
    starting
    ∷ (submitting (pos 1) (task 0 20 128)
        ∷ (submitting (pos 2) (task 0 10 128)
            ∷ (submitting (pos 30) (task 0 10 128)
                ∷ (resetting ∷ (turning turn ∷ (cancelling 1 ∷ (stopping ∷ [])))))))

fresh-Accounts : Accounts 0 (fresh true true 4)
fresh-Accounts = record {
  ordered = record { sorted = tt; bounded = omega arith };
  distinct = tt;
  given = tt;
  balance = refl;
}

run-Accounts_example :
    Accounts (run_uncounted calls (fresh true true 4) 0) (run calls (fresh true true 4))
run-Accounts_example = run-Accounts 0 calls (fresh true true 4) fresh-Accounts (omega arith)
