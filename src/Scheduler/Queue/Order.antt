-- ===== src/Scheduler/Queue/Order.antt =====
-- The order of the tasks in `TaskQueue` (task_queue.cpp), and its bound.
use ipb.Base.{
  ℕ, suc, ◌≤◌, ◌<◌, ◌≡◌, refl, ap, sym, inl, inr, Bool, true, false, List, [], ◌∷◌, ◌++◌, some,
  if◌then◌else◌, leb, ◌==◌, length, arith, Bool-cases, All,
}
use mathlib.Core.Path.{subst}
use mathlib.Core.List.{append_assoc, append-nil}
use ipb.Base.Int.{ℤ, ltb_ℤ}
use ipb.Scheduler.Queue.{
  ScheduledTask, TaskQueue, is_later, insert, push, drain, rebuild, remove, nearest_deadline, peek,
  top, deadline_of,
}

-- No task stands before one that is ahead of it.
abbrev pub IsSorted : List ScheduledTask → Type 0
IsSorted [] = Unit
IsSorted (t ∷ tasks) = All (λ u. is_later t u ≡ false) tasks × IsSorted tasks

pub record IsValid (q : TaskQueue) : Type 0 where
  pub sorted : IsSorted q.tasks
  pub bounded : length q.tasks ≤ q.max_size

is_later-asymm : (a b : ScheduledTask) → is_later a b ≡ true → is_later b a ≡ false
unfolding is_later
is_later-asymm a b h = ground arith

is_later_trans :
    (a b c : ScheduledTask) → is_later a b ≡ false → is_later b c ≡ false → is_later a c ≡ false
unfolding is_later
is_later_trans a b c h k = ground arith

pub All-insert :
    (P : ScheduledTask → Type 0) (t : ScheduledTask) (tasks : List ScheduledTask)
    → P t
    → All P tasks
    → All P (insert t tasks)
unfolding insert
All-insert P t [] h k = (h, tt)
All-insert P t (x ∷ tasks) h k = elim (Bool-cases (is_later x t)) [
  | inl e ↦ rw e (h, k)
  | inr e ↦ rw e (k.0, All-insert P t tasks h k.1)
]

All-later :
    (t u : ScheduledTask) (tasks : List ScheduledTask)
    → is_later t u ≡ false
    → All (λ x. is_later u x ≡ false) tasks
    → All (λ x. is_later t x ≡ false) tasks
All-later t u [] h k = tt
All-later t u (x ∷ tasks) h k = (is_later_trans t u x h k.0, All-later t u tasks h k.1)

pub insert-IsSorted :
    (t : ScheduledTask) (tasks : List ScheduledTask) → IsSorted tasks → IsSorted (insert t tasks)
unfolding insert
insert-IsSorted t [] h = (tt, tt)
insert-IsSorted t (u ∷ tasks) h = elim (Bool-cases (is_later u t)) [
  | inl e ↦ let k = is_later-asymm u t e in rw e ((k, All-later t u tasks k h.0), h)
  | inr e ↦ rw e (All-insert _ t tasks e h.0, insert-IsSorted t tasks h.1)
]

pub length-insert :
    (t : ScheduledTask) (tasks : List ScheduledTask) → length (insert t tasks) ≡ suc (length tasks)
unfolding insert
length-insert t [] = refl
length-insert t (u ∷ tasks) = elim (Bool-cases (is_later u t)) [
  | inl e ↦ rw e refl
  | inr e ↦ rw e (ap suc (length-insert t tasks))
]

-- A task that no task is ahead of goes to the end.
insert-last :
    (t : ScheduledTask) (tasks : List ScheduledTask)
    → All (λ x. is_later x t ≡ false) tasks
    → insert t tasks ≡ tasks ++ (t ∷ [])
unfolding insert
insert-last t [] h = refl
insert-last t (u ∷ tasks) h = rw h.0 (ap (◌∷◌ u) (insert-last t tasks h.1))

-- The tasks of other ids, and whether there are any of this id.
abbrev pub without : ℕ → List ScheduledTask → List ScheduledTask
without id [] = []
without id (t ∷ tasks) = let rest = without id tasks in if t.id == id then rest else t ∷ rest

abbrev pub has : ℕ → List ScheduledTask → Bool
has id [] = false
has id (t ∷ tasks) = let rest = has id tasks in if t.id == id then true else rest

pub drain-eq :
    (id : ℕ) (tasks : List ScheduledTask) → drain id tasks ≡ (has id tasks, without id tasks)
unfolding drain
drain-eq id [] = refl
drain-eq id (t ∷ tasks) = elim (Bool-cases (t.id == id)) [
  | inl e ↦ rw (e, drain-eq id tasks) refl
  | inr e ↦ rw (e, drain-eq id tasks) refl
]

pub All-without :
    (P : ScheduledTask → Type 0) (id : ℕ) (tasks : List ScheduledTask)
    → All P tasks
    → All P (without id tasks)
All-without P id [] h = tt
All-without P id (t ∷ tasks) h = elim (Bool-cases (t.id == id)) [
  | inl e ↦ rw e (All-without P id tasks h.1)
  | inr e ↦ rw e (h.0, All-without P id tasks h.1)
]

pub without-IsSorted :
    (id : ℕ) (tasks : List ScheduledTask) → IsSorted tasks → IsSorted (without id tasks)
without-IsSorted id [] h = tt
without-IsSorted id (t ∷ tasks) h = elim (Bool-cases (t.id == id)) [
  | inl e ↦ rw e (without-IsSorted id tasks h.1)
  | inr e ↦ rw e (All-without _ id tasks h.0, without-IsSorted id tasks h.1)
]

pub length-without :
    (id : ℕ) (tasks : List ScheduledTask) → length (without id tasks) ≤ length tasks
length-without id [] = omega arith
length-without id (t ∷ tasks) = elim (Bool-cases (t.id == id)) [
  | inl e ↦ rw e (omega (arith, length-without id tasks))
  | inr e ↦ rw e (omega (arith, length-without id tasks))
]

All-middle :
    (P : ScheduledTask → Type 0) (front back : List ScheduledTask) (t : ScheduledTask)
    → All P (front ++ (t ∷ back))
    → P t
All-middle P [] back t h = h.0
All-middle P (u ∷ front) back t h = All-middle P front back t h.1

ahead :
    (front back : List ScheduledTask) (t : ScheduledTask)
    → IsSorted (front ++ (t ∷ back))
    → All (λ x. is_later x t ≡ false) front
ahead [] back t h = tt
ahead (u ∷ front) back t h = (All-middle _ front back t h.0, ahead front back t h.1)

rebuild-eq-append :
    (kept front : List ScheduledTask)
    → IsSorted (front ++ kept)
    → rebuild kept front ≡ front ++ kept
unfolding rebuild
rebuild-eq-append [] front h = sym (append-nil front)
rebuild-eq-append (t ∷ kept) front h =
    let e : (front ++ (t ∷ [])) ++ kept ≡ front ++ (t ∷ kept) = append_assoc front (t ∷ []) kept in
    rw (insert-last t front (ahead front kept t h), ← e)
      (rebuild-eq-append kept (front ++ (t ∷ [])) (rw e h))

-- On a queue in order `remove`, which takes every task out and pushes the others again, drops the
-- tasks of that id and leaves the others in the order that they had; it returns whether there was one.
pub remove_lem :
    (id : ℕ) (q : TaskQueue)
    → IsSorted q.tasks
    → remove id q ≡ (has id q.tasks, record q { tasks = without id q.tasks })
unfolding remove
remove_lem id q h =
    rw
      (
        drain-eq id q.tasks,
        rebuild-eq-append (without id q.tasks) [] (without-IsSorted id q.tasks h),
      )
      refl

pub push-IsValid : (t : ScheduledTask) (q : TaskQueue) → IsValid q → IsValid (push t q).1
unfolding push
push-IsValid t q v = elim (Bool-cases (leb q.max_size (length q.tasks))) [
  | inl e ↦ rw e v
  | inr e ↦ rw e (record {
    sorted = insert-IsSorted t q.tasks v.sorted;
    bounded = omega (arith, length-insert t q.tasks, the_room e);
  })
]
  where
    the_room : leb q.max_size (length q.tasks) ≡ false → length q.tasks < q.max_size
    the_room e = ground arith

not_before : (t u : ScheduledTask) → is_later t u ≡ false → ltb_ℤ u.deadline t.deadline ≡ false
unfolding is_later
not_before t u h = ground arith

not_later_self : (t : ScheduledTask) → is_later t t ≡ false
unfolding is_later
not_later_self t = ground arith

pub All-weaken :
    (P Q : ScheduledTask → Type 0)
    → ((t : ScheduledTask) → P t → Q t)
    → (tasks : List ScheduledTask) → All P tasks
    → All Q tasks
All-weaken P Q f [] h = tt
All-weaken P Q f (t ∷ tasks) h = (f t h.0, All-weaken P Q f tasks h.1)

-- On a valid queue `nearest_deadline` is a lower bound of the deadlines of all pending tasks.
pub nearest_deadline-least :
    (q : TaskQueue) (d : ℤ)
    → IsValid q
    → nearest_deadline q ≡ some d
    → All (λ t. ltb_ℤ t.deadline d ≡ false) q.tasks
unfolding nearest_deadline peek
nearest_deadline-least q d v e = go q.tasks v.sorted e
  where
    go :
        (tasks : List ScheduledTask)
        → IsSorted tasks
        → deadline_of (top tasks) ≡ some d
        → All (λ t. ltb_ℤ t.deadline d ≡ false) tasks
    go [] s h = tt
    go (t ∷ tasks) s h =
        let k : t.deadline ≡ d = cc in
        subst (λ e. All (λ u. ltb_ℤ u.deadline e ≡ false) (t ∷ tasks)) k
          (
            not_before t t (not_later_self t),
            All-weaken (λ u. is_later t u ≡ false) (λ u. ltb_ℤ u.deadline t.deadline ≡ false)
                (λ u. not_before t u) tasks s.0,
          )
