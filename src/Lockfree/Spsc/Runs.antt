-- ===== src/Lockfree/Spsc/Runs.antt =====
-- `SPSCQueue` (lockfree_queue.hpp) from its constructor on, under any interleaving of the two threads.
use Prim.Native.Nat.{◌∣◌}
use native.Mathlib.Nat.{mod-eq_of_lt}
use mathlib.Core.List.{append-nil, append_assoc}
use ipb.Base.{
  ℕ, zero, suc, ◌+◌, ◌^◌, ◌≤◌, ◌<◌, ◌≡◌, refl, sym, ap, ◌∙◌, List, [], ◌∷◌, ◌++◌, length, arith,
}
use ipb.Lockfree.Spsc.{Queue, Label, silent, enqueued, full, dequeued, empty, Act, fresh, act}
use ipb.Lockfree.Spsc.Slots.{Free}
use ipb.Lockfree.Spsc.Refine.{Effect, Holds, act-Implements}

-- The values whose enqueue took effect, and those whose dequeue did.
abbrev pub published : {A : Type 0} → List (Label A) → List A
published [] = []
published (enqueued v ∷ labels) = v ∷ published labels
published (silent ∷ labels) = published labels
published (full ∷ labels) = published labels
published (dequeued v ∷ labels) = published labels
published (empty ∷ labels) = published labels

abbrev pub taken : {A : Type 0} → List (Label A) → List A
taken [] = []
taken (dequeued v ∷ labels) = v ∷ taken labels
taken (silent ∷ labels) = taken labels
taken (enqueued v ∷ labels) = taken labels
taken (full ∷ labels) = taken labels
taken (empty ∷ labels) = taken labels

-- An interleaving, with the labels of its steps.
abbrev pub run : {A : Type 0} → ℕ → List (Act A) → Queue A → List (Label A) × Queue A
run capacity [] q = ([], q)
run capacity (step ∷ steps) q =
    let (q', label) = act capacity step q in
    let (labels, q'') = run capacity steps q' in (label ∷ labels, q'')

Free-fresh :
    (capacity : ℕ) → capacity < 2 ^ 64 → (h n : ℕ) → h + n ≡ capacity → Free capacity (λ i. i) h n
Free-fresh capacity bounded h zero e = tt
Free-fresh capacity bounded h (suc n) e = (
  mod-eq_of_lt (omega arith) ∙ sym (mod-eq_of_lt (omega arith)),
  Free-fresh capacity bounded (h + 1) n (omega arith),
)

module _ {A : Type 0} (capacity : ℕ) where
  account :
      (label : Label A) (values mid after : List A) (labels : List (Label A))
      → Effect capacity label values mid
      → mid ++ published labels ≡ taken labels ++ after
      → values ++ published (label ∷ labels) ≡ taken (label ∷ labels) ++ after
  account silent values mid after labels e rest = ap (λ m. m ++ published labels) (sym e) ∙ rest
  account (enqueued v) values mid after labels e rest =
      sym (append_assoc values (v ∷ []) (published labels))
      ∙ ap (λ m. m ++ published labels) (sym e.1)
      ∙ rest
  account full values mid after labels e rest = ap (λ m. m ++ published labels) (sym e.1) ∙ rest
  account (dequeued v) values mid after labels e rest =
      ap (λ m. m ++ published labels) e ∙ ap (λ m. v ∷ m) rest
  account empty values mid after labels e rest = ap (λ m. m ++ published labels) (sym e.1) ∙ rest

  run-Holds :
      (divides : capacity ∣ 2 ^ 64) (two : 2 ≤ capacity) (bounded : capacity < 2 ^ 64)
      (steps : List (Act A)) (q : Queue A) (values : List A)
      → Holds capacity q values
      → let (labels, q') = run capacity steps q in
        (after : List A) × (values ++ published labels ≡ taken labels ++ after)
        × Holds capacity q' after
  run-Holds divides two bounded [] q values a = (values, append-nil values, a)
  run-Holds divides two bounded (step ∷ steps) q values a =
      let (q', label) = act capacity step q in
      let (mid, e, b) = act-Implements capacity divides two bounded step q values a in
      let (after, rest, c) = run-Holds divides two bounded steps (act capacity step q).0 mid b in
      (
        after,
        account (act capacity step q).1 values mid after
            (run capacity steps (act capacity step q).0).0 e rest,
        c,
      )

  fresh-Holds : capacity < 2 ^ 64 → (filler : A) → Holds capacity (fresh capacity filler) []
  unfolding fresh
  fresh-Holds bounded filler = record {
    t = 0;
    h = 0;
    n = capacity;
    span = omega arith;
    room = omega arith;
    filled = tt;
    free = Free-fresh capacity bounded 0 capacity (omega arith);
    producing = refl;
    consuming = refl;
  }

  -- Under any interleaving of a producer and a consumer that starts with a new queue, the values that were
  -- enqueued are, in the same order, those that were dequeued followed by at most `capacity` values. None
  -- is lost, doubled or changed, also after the positions have wrapped. The capacity is at least 2, divides
  -- 2^64 and is less than it.
  pub run-fifo :
      capacity ∣ 2 ^ 64
      → 2 ≤ capacity
      → capacity < 2 ^ 64
      → (steps : List (Act A)) (filler : A)
      → let (labels, q) = run capacity steps (fresh capacity filler) in
        (waiting : List A) × (published labels ≡ taken labels ++ waiting)
        × (length waiting ≤ capacity)
  run-fifo divides two bounded steps filler =
      let (waiting, e, a) =
        run-Holds divides two bounded steps (fresh capacity filler) []
          (fresh-Holds bounded filler) in
      (waiting, e, omega (arith, a.room))
