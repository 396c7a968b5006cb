-- ===== src/Scheduler/Edf/Accounts.antt =====
-- What each operation of `EDFSchedulerImpl` (edf_scheduler.cpp) does to the pending tasks and the counts.
use ipb.Base.{
  ℕ, ◌+◌, ◌%◌, ◌^◌, ◌<◌, ◌≡◌, ◌≢◌, refl, inl, inr, Bool, true, false, List, [], ◌∷◌, none,
  if◌then◌else◌, leb, length, arith, Bool-cases, All,
}
use ipb.Base.Int.{ℤ, ◌-ℤ◌, ltb_ℤ, leb_ℤ}
use ipb.Scheduler.Queue.{ScheduledTask, push, pop, try_pop, take_top, pending}
use ipb.Scheduler.Queue.Order.{
  All-weaken, IsValid, All-insert, All-without, length-insert, without, has, without-IsSorted,
  insert-IsSorted, remove_lem, length-without,
}
use ipb.Scheduler.Edf.{
  Scheduler, Stats, start, stop, stop_immediate, cancel_all, count_cancelled, count_missed,
  count_submitted, count_outcome, count_deadline, count_times, update_latency_stats,
  update_execution_stats, record_completed, skip, execute, handle, enqueued, submit, cancel,
  worker_turn, Turn, increment,
}
use ipb.Scheduler.Edf.Calls.{
  late_result, Accounts, insert-Distinct, without-Distinct, length-without-has,
}

pub start-Accounts : (n : ℕ) (s : Scheduler) → Accounts n s → Accounts n (start s).1
unfolding start
start-Accounts n s a = elim (Bool-cases s.is_running) [
  | inl e ↦ simp e a
  | inr e ↦
      simp e (record {
        ordered = a.ordered;
        distinct = a.distinct;
        given = a.given;
        balance = a.balance;
      })
]

pub stop-Accounts : (n : ℕ) (s : Scheduler) → Accounts n s → Accounts n (stop s)
unfolding stop
stop-Accounts n s a = elim (Bool-cases s.is_running) [
  | inl e ↦
      simp e (record {
        ordered = a.ordered;
        distinct = a.distinct;
        given = a.given;
        balance = a.balance;
      })
  | inr e ↦ simp e a
]

-- `cancel_all` counts every task, and changes no other count.
cancel_all_lem :
    (tasks : List ScheduledTask) (c : Stats)
    → ((cancel_all tasks c).0.tasks_submitted ≡ c.tasks_submitted)
      × ((cancel_all tasks c).0.deadlines_met ≡ c.deadlines_met)
      × ((cancel_all tasks c).0.deadlines_missed ≡ c.deadlines_missed)
      × ((cancel_all tasks c).0.tasks_cancelled % 2 ^ 64
          ≡ (length tasks + c.tasks_cancelled) % 2 ^ 64)
unfolding cancel_all count_cancelled
cancel_all_lem [] c = (refl, refl, refl, omega arith)
cancel_all_lem (t ∷ tasks) c =
    let h = cancel_all_lem tasks (count_cancelled c) in (h.0, h.1, h.2, omega (arith, h.3))

pub stop_immediate-Accounts :
    (n : ℕ) (s : Scheduler) → Accounts n s → Accounts n (stop_immediate s).0
unfolding stop_immediate
stop_immediate-Accounts n s a =
    let h = cancel_all_lem s.queue.tasks s.stats in
    record {
      ordered = record { sorted = tt; bounded = omega arith };
      distinct = tt;
      given = tt;
      balance = omega (arith, h.0, h.1, h.2, h.3, a.balance);
    }

pub cancel-Accounts : (n id : ℕ) (s : Scheduler) → Accounts n s → Accounts n (cancel id s).1
unfolding cancel count_cancelled
cancel-Accounts n id s a =
    let k = length-without-has id s.queue.tasks a.distinct in
    let v : IsValid (record s.queue { tasks = without id s.queue.tasks }) = record {
      sorted = without-IsSorted id s.queue.tasks a.ordered.sorted;
      bounded = omega (arith, length-without id s.queue.tasks, a.ordered.bounded);
    } in
    elim (Bool-cases (has id s.queue.tasks)) [
      | inl e ↦
          rw (remove_lem id s.queue a.ordered.sorted, e)
            (record {
              ordered = v;
              distinct = without-Distinct id s.queue.tasks a.distinct;
              given = All-without _ id s.queue.tasks a.given;
              balance = omega (arith, (rw e at k), a.balance);
            })
      | inr e ↦
          rw (remove_lem id s.queue a.ordered.sorted, e)
            (record {
              ordered = v;
              distinct = without-Distinct id s.queue.tasks a.distinct;
              given = All-without _ id s.queue.tasks a.given;
              balance = omega (arith, (rw e at k), a.balance);
            })
    ]

pub recount : (m n : ℕ) (s : Scheduler) → m ≡ n → Accounts m s → Accounts n s
recount m n s e a = rw (← e) a

has_room : (m n : ℕ) → leb m n ≡ false → n < m
has_room m n e = ground arith

enqueued-Accounts :
    (n id : ℕ) (t : ScheduledTask) (s : Scheduler)
    → Accounts n s
    → All (λ u. u.id < t.id) s.queue.tasks
    → t.id < s.next_task_id
    → Accounts n (enqueued id (push t s.queue) s).1
unfolding push count_submitted
enqueued-Accounts n id t s a below given =
    elim (Bool-cases (leb s.queue.max_size (length s.queue.tasks))) [
      | inl e ↦ simp e a
      | inr e ↦ simp e (record {
        ordered = record {
          sorted = insert-IsSorted t s.queue.tasks a.ordered.sorted;
          bounded = omega (
            arith,
            length-insert t s.queue.tasks,
            has_room s.queue.max_size (length s.queue.tasks) e,
          );
        };
        distinct =
            insert-Distinct t s.queue.tasks
              (All-weaken (λ u. u.id < t.id) (λ u. u.id ≢ t.id) (λ u h k. absurd (omega arith))
                s.queue.tasks below)
              a.distinct;
        given = All-insert (λ u. u.id < s.next_task_id) t s.queue.tasks given a.given;
        balance = omega (arith, length-insert t s.queue.tasks, a.balance);
      })
    ]

push_result :
    (n id : ℕ) (t : ScheduledTask) (r : Scheduler)
    → Accounts n (enqueued id (push t r.queue) r).1
    → Accounts
        (late_result (enqueued id (push t r.queue) r).0 + n)
        (enqueued id (push t r.queue) r).1
unfolding push
push_result n id t r h = elim (Bool-cases (leb r.queue.max_size (length r.queue.tasks))) [
  | inl e ↦ simp e (recount n (0 + n) r (omega arith) (simp e at h))
  | inr e ↦ simp e (recount n (0 + n) _ (omega arith) (simp e at h))
]

pub submit-Accounts :
    (n : ℕ) (now : ℤ) (task : ScheduledTask) (s : Scheduler)
    → Accounts n s
    → s.next_task_id + 1 < 2 ^ 64
    → Accounts (late_result (submit now task s).0 + n) (submit now task s).1
unfolding submit count_missed
submit-Accounts n now task s a small =
    let next : increment s.next_task_id ≡ s.next_task_id + 1 = omega arith in
    let given : All (λ t. t.id < increment s.next_task_id) s.queue.tasks =
      All-weaken (λ t. t.id < s.next_task_id) (λ t. t.id < increment s.next_task_id)
        (λ t h. omega arith) s.queue.tasks a.given in
    elim (Bool-cases s.is_running) [
      | inr off ↦ simp off (recount n (0 + n) s (omega arith) a)
      | inl on ↦ elim (Bool-cases (leb_ℤ task.deadline now)) [
        | inl e ↦
            simp (on, e)
              (record {
                ordered = a.ordered;
                distinct = a.distinct;
                given = given;
                balance = omega (arith, a.balance);
              })
        | inr e ↦
            let t : ScheduledTask = record task {
              id = s.next_task_id;
              arrival_time = now;
              state = pending;
            } in
            let s1 : Scheduler = record s {
              is_running = true;
              next_task_id = increment s.next_task_id;
            } in
            simp (on, e)
              (push_result n s.next_task_id t s1 (
                enqueued-Accounts n s.next_task_id t s1
                  (record {
                    ordered = a.ordered;
                    distinct = a.distinct;
                    given = given;
                    balance = a.balance;
                  })
                  a.given (omega arith)))
      ]
    ]

-- The counts that a run of a task changes.
counted :
    (x : Turn) (met : Bool) (timing : Bool) (latency : ℤ) (c : Stats)
    → let d =
        count_times timing latency x.exec_time (count_deadline met (count_outcome x.returns c)) in
      (d.tasks_submitted ≡ c.tasks_submitted)
      × (d.tasks_cancelled ≡ c.tasks_cancelled)
      × ((d.deadlines_met + d.deadlines_missed) % 2 ^ 64
          ≡ (c.deadlines_met + c.deadlines_missed + 1) % 2 ^ 64)
unfolding count_times count_deadline count_outcome count_missed update_latency_stats
    update_execution_stats
counted x met timing latency c = go x.returns met timing
  where
    go :
        (returns met timing : Bool)
        → let d =
            count_times timing latency x.exec_time (count_deadline met (count_outcome returns c)) in
          (d.tasks_submitted ≡ c.tasks_submitted)
          × (d.tasks_cancelled ≡ c.tasks_cancelled)
          × ((d.deadlines_met + d.deadlines_missed) % 2 ^ 64
              ≡ (c.deadlines_met + c.deadlines_missed + 1) % 2 ^ 64)
    go true true true = (refl, refl, omega arith)
    go true true false = (refl, refl, omega arith)
    go true false true = (refl, refl, omega arith)
    go true false false = (refl, refl, omega arith)
    go false true true = (refl, refl, omega arith)
    go false true false = (refl, refl, omega arith)
    go false false true = (refl, refl, omega arith)
    go false false false = (refl, refl, omega arith)

handle-Accounts :
    (n : ℕ) (x : Turn) (m : ℕ) (tasks : List ScheduledTask) (s : Scheduler)
    → Accounts n (record s { queue = record { max_size = m; tasks = tasks } })
    → Accounts n
        (handle x
          (take_top m tasks)
          (record s { queue = record { max_size = m; tasks = tasks } })).0
unfolding skip execute count_missed record_completed
handle-Accounts n x m [] s a = a
handle-Accounts n x m (t ∷ tasks) s a =
    let v : IsValid (record { max_size = m; tasks = tasks }) = record {
      sorted = a.ordered.sorted.1;
      bounded = omega (arith, a.ordered.bounded);
    } in
    let k =
      counted x (leb_ℤ x.finish_time t.deadline) s.enable_timing (x.now -ℤ t.arrival_time)
        (record s.stats { current_queue_size = length tasks }) in
    elim (Bool-cases (ltb_ℤ t.deadline x.now)) [
      | inl e ↦ simp e (record {
        ordered = v;
        distinct = a.distinct.1;
        given = a.given.1;
        balance = omega (arith, a.balance);
      })
      | inr e ↦ simp e (record {
        ordered = v;
        distinct = a.distinct.1;
        given = a.given.1;
        balance = omega (arith, a.balance, k.0, k.1, k.2);
      })
    ]

pub worker_turn-Accounts :
    (n : ℕ) (x : Turn) (s : Scheduler) → Accounts n s → Accounts n (worker_turn x s).0
unfolding worker_turn try_pop pop
worker_turn-Accounts n x s a = go s.stop_requested x.owns_lock
  where
    go :
        (stopped owned : Bool)
        → Accounts n
            (if stopped
              then (s, [])
              else handle x
                  (if owned then take_top s.queue.max_size s.queue.tasks else (none, s.queue))
                  s).0
    go true owned = a
    go false false = a
    go false true = handle-Accounts n x s.queue.max_size s.queue.tasks s a
