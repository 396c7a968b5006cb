-- ===== src/Lockfree/Spsc/Single.antt =====
-- `SPSCQueue` (lockfree_queue.hpp) with a capacity of 1, which its static assertion lets through: the mark
-- of a published value is the mark of a free cell for the next position.
use native.Mathlib.Nat.{mod-one, mod-eq_of_lt}
use ipb.Base.{
  ℕ, ◌+◌, ◌^◌, ◌%◌, ◌<◌, ◌≡◌, refl, ap, ◌∙◌, true, false, ◌==◌, List, [], ◌∷◌, length, arith,
}
use ipb.Lockfree.Spsc.{
  Queue, Producer, Consumer, Stats, silent, enqueued, empty, Act, call_enqueue, run_producer,
  call_dequeue, run_consumer, fresh, act, produce, consume, next64, update,
}
use ipb.Lockfree.Spsc.Runs.{run, published, taken}

-- A call of `try_enqueue` for each value, then one of `try_dequeue` up to its test.
abbrev pub enqueue_all : {A : Type 0} → List A → List (Act A)
enqueue_all [] = call_dequeue ∷ run_consumer ∷ []
enqueue_all (v ∷ values) =
    call_enqueue v ∷ run_producer ∷ run_producer ∷ run_producer ∷ run_producer ∷ enqueue_all values

module _ {A : Type 0} where
  -- A queue outside any call, of which nothing was taken.
  abbrev between : (ℕ → ℕ) → (ℕ → A) → ℕ → Stats → Queue A
  between f g k s = record {
    sequence = f;
    contents = g;
    head = k;
    tail = 0;
    producer = Producer.idle;
    consumer = Consumer.idle;
    stats = s;
  }

  one_call :
      (v : A) (values : List A) (f : ℕ → ℕ) (g : ℕ → A) (k : ℕ) (s : Stats)
      → f 0 ≡ k
      → let rest = run 1 (enqueue_all values) (
          between
            (update f 0 (next64 k))
            (update g 0 v)
            (next64 k)
            (record s { enqueues = next64 s.enqueues })) in
        run 1 (enqueue_all (v ∷ values)) (between f g k s)
        ≡ (silent ∷ silent ∷ silent ∷ enqueued v ∷ silent ∷ rest.0, rest.1)
  unfolding act produce
  one_call v values f g k s e =
      let same : (f 0 == k) ≡ true = ground (arith, e) in
      let only : k % 1 ≡ 0 = mod-one k in
      rw (only, same)
        (ap
          (λ c.
            let rest = run 1 (enqueue_all values) (
              between (update f c (next64 k)) (update g c v) (next64 k)
                (record s { enqueues = next64 s.enqueues })) in
            (silent ∷ silent ∷ silent ∷ enqueued v ∷ silent ∷ rest.0, rest.1))
          only)

  one_test :
      (f : ℕ → ℕ) (g : ℕ → A) (k : ℕ) (s : Stats)
      → f 0 ≡ k
      → 1 < k
      → (run 1 (enqueue_all []) (between f g k s)).0 ≡ silent ∷ empty ∷ []
  unfolding act consume
  one_test f g k s e more =
      let differs : (f 0 == 1) ≡ false = ground (arith, e, more) in rw differs refl

  -- From the mark `k` on, every call succeeds and the dequeue finds nothing.
  all_calls :
      (values : List A) (f : ℕ → ℕ) (g : ℕ → A) (k : ℕ) (s : Stats)
      → f 0 ≡ k
      → 1 < k + length values
      → k + length values < 2 ^ 64
      → let labels = (run 1 (enqueue_all values) (between f g k s)).0 in
        (published labels ≡ values) × (taken labels ≡ [])
  all_calls [] f g k s e more fits =
      let t = one_test f g k s e (omega (arith, more)) in (ap published t, ap taken t)
  all_calls (v ∷ values) f g k s e more fits =
      let next : next64 k ≡ k + 1 = mod-eq_of_lt (omega (arith, fits)) in
      let rest =
        all_calls values (update f 0 (next64 k)) (update g 0 v) (next64 k)
          (record s { enqueues = next64 s.enqueues }) refl (omega (arith, more, next))
          (omega (arith, fits, next)) in
      let step = one_call v values f g k s e in
      (ap (λ r. published r.0) step ∙ ap (λ l. v ∷ l) rest.0, ap (λ r. taken r.0) step ∙ rest.1)

  -- In a new queue of capacity 1, any number of calls of `try_enqueue` from two to 2^64 - 1, with no
  -- dequeue between them, all succeed, so that each overwrites the value before; and the call of
  -- `try_dequeue` after them finds the queue empty.
  pub run_single :
      (values : List A) (filler : A)
      → 1 < length values
      → length values < 2 ^ 64
      → let labels = (run 1 (enqueue_all values) (fresh 1 filler)).0 in
        (published labels ≡ values) × (taken labels ≡ [])
  unfolding fresh
  run_single values filler more fits =
      all_calls values (λ i. i) (λ i. filler) 0
        (record { enqueues = 0; dequeues = 0; failed_enqueues = 0; failed_dequeues = 0 }) refl
        (omega (arith, more)) (omega (arith, fits))
