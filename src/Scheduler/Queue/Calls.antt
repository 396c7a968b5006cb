-- ===== src/Scheduler/Queue/Calls.antt =====
-- Calls of `TaskQueue` (task_queue.cpp) in any order on a new queue, and what `pop` takes after them.
use ipb.Base.{
  ℕ, ◌≤◌, ◌≡◌, refl, ◌⊎◌, Bool, true, false, List, [], ◌∷◌, Option, none, some, length, arith, All,
}
use ipb.Base.Int.{ltb_ℤ}
use ipb.Scheduler.Queue.{
  ScheduledTask, TaskQueue, is_later, push, pop, try_pop, take_top, remove, clear,
}
use ipb.Scheduler.Queue.Order.{
  IsSorted, IsValid, push-IsValid, remove_lem, without-IsSorted, length-without, All-weaken,
}

-- The calls that change the queue, with their arguments.
pub data Call : Type 0 where
  pushing : ScheduledTask → Call
  popping : Call
  trying_pop : Bool → Call
  removing : ℕ → Call
  clearing : Call

abbrev pub step : Call → TaskQueue → TaskQueue
step (pushing t) q = (push t q).1
step popping q = (pop q).1
step (trying_pop owns_lock) q = (try_pop owns_lock q).1
step (removing id) q = (remove id q).1
step clearing q = clear q

abbrev pub run : List Call → TaskQueue → TaskQueue
run [] q = q
run (c ∷ calls) q = run calls (step c q)

abbrev pub new : ℕ → TaskQueue
new max_size = record { max_size = max_size; tasks = [] }

pop-IsValid : (q : TaskQueue) → IsValid q → IsValid (pop q).1
unfolding pop
pop-IsValid q v = go q.max_size q.tasks v.sorted v.bounded
  where
    go :
        (n : ℕ) (tasks : List ScheduledTask)
        → IsSorted tasks
        → length tasks ≤ n
        → IsValid (take_top n tasks).1
    go n [] s b = record { sorted = tt; bounded = b }
    go n (t ∷ tasks) s b = record { sorted = s.1; bounded = omega arith }

remove-IsValid : (id : ℕ) (q : TaskQueue) → IsValid q → IsValid (remove id q).1
remove-IsValid id q v = rw (remove_lem id q v.sorted) (record {
  sorted = without-IsSorted id q.tasks v.sorted;
  bounded = omega (arith, length-without id q.tasks, v.bounded);
})

step-IsValid : (c : Call) (q : TaskQueue) → IsValid q → IsValid (step c q)
unfolding try_pop clear
step-IsValid (pushing t) q v = push-IsValid t q v
step-IsValid popping q v = pop-IsValid q v
step-IsValid (trying_pop true) q v = pop-IsValid q v
step-IsValid (trying_pop false) q v = v
step-IsValid (removing id) q v = remove-IsValid id q v
step-IsValid clearing q v = record { sorted = tt; bounded = omega arith }

run-IsValid : (calls : List Call) (q : TaskQueue) → IsValid q → IsValid (run calls q)
run-IsValid [] q v = v
run-IsValid (c ∷ calls) q v = run-IsValid calls (step c q) (step-IsValid c q v)

-- A task that may stay when `t` is taken: its deadline is later, or it is the same and its priority is
-- not higher.
abbrev pub After : ScheduledTask → ScheduledTask → Type 0
After t u =
    (ltb_ℤ t.deadline u.deadline ≡ true) ⊎ ((u.deadline ≡ t.deadline) × (u.priority ≤ t.priority))

After-is_later : (t u : ScheduledTask) → is_later t u ≡ false → After t u
unfolding is_later
After-is_later t u h = ground arith

-- What `pop` takes out of the tasks.
abbrev pub Popped : Option ScheduledTask × TaskQueue → List ScheduledTask → Type 0
Popped (none, q) tasks = (tasks ≡ []) × (q.tasks ≡ [])
Popped (some t, q) tasks = (tasks ≡ t ∷ q.tasks) × All (λ u. After t u) q.tasks

-- After any calls of a new queue of any size, the tasks are within its bound, and `pop` returns none only
-- if no task is pending; else it returns a pending task, every other stays, and each of these has a later
-- deadline, or the same deadline and no higher priority.
pub pop-earliest :
    (max_size : ℕ) (calls : List Call)
    → let q = run calls (new max_size) in Popped (pop q) q.tasks × (length q.tasks ≤ q.max_size)
unfolding pop
pop-earliest max_size calls =
    let q = run calls (new max_size) in
    let v = run-IsValid calls (new max_size) (record { sorted = tt; bounded = omega arith }) in
    (go q.max_size q.tasks v.sorted, v.bounded)
  where
    go : (n : ℕ) (tasks : List ScheduledTask) → IsSorted tasks → Popped (take_top n tasks) tasks
    go n [] s = (refl, refl)
    go n (t ∷ tasks) s = (
      refl,
      All-weaken (λ u. is_later t u ≡ false) (λ u. After t u) (λ u. After-is_later t u) tasks s.0,
    )
