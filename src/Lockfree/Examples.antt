-- ===== src/Lockfree/Examples.antt =====
-- Runs of `SPSCQueue` (lockfree_queue.hpp) on a queue of four cells.
use Prim.{∣◌∣₁}
use Prim.Native.Nat.{◌∣◌}
use ipb.Base.{ℕ, ◌^◌, ◌≤◌, ◌≡◌, refl, List, [], ◌∷◌, ◌++◌, length, arith}
use ipb.Lockfree.Spsc.{
  Queue, Producer, Act, call_enqueue, run_producer, call_dequeue, run_consumer, fresh, act, produce,
  consume,
}
use ipb.Lockfree.Spsc.Refine.{Implements, Holds, act-Implements}
use ipb.Lockfree.Spsc.Runs.{run, published, taken, run-fifo}

four_divides : 4 ∣ 2 ^ 64
four_divides = ∣ (2 ^ 62, refl) ∣₁

-- The producer has loaded its position.
abbrev called : Queue ℕ
unfolding fresh
called = record (fresh 4 0) { producer = Producer.loaded 7 0 }

called-Holds : Holds 4 called []
unfolding fresh
called-Holds = record {
  t = 0;
  h = 0;
  n = 4;
  span = refl;
  room = refl;
  filled = tt;
  free = (refl, (refl, (refl, (refl, tt))));
  producing = (refl, refl);
  consuming = refl;
}

-- A producer that is overtaken by a consumer between its accesses.
abbrev overlapped : List (Act ℕ)
overlapped =
    call_enqueue 7
    ∷ run_producer
    ∷ call_dequeue
    ∷ run_producer
    ∷ run_consumer
    ∷ run_producer
    ∷ call_dequeue
    ∷ run_consumer
    ∷ run_producer
    ∷ run_consumer
    ∷ run_consumer
    ∷ []

run-overlapped : taken (run 4 overlapped (fresh 4 0)).0 ≡ 7 ∷ []
unfolding act fresh produce consume
run-overlapped = refl

act-Implements_example : Implements 4 [] (act 4 run_producer called)
act-Implements_example =
    act-Implements 4 four_divides (omega arith) (omega arith) run_producer called [] called-Holds

run-fifo_example :
    let (labels, q) = run 4 overlapped (fresh 4 0) in
    (waiting : List ℕ) × (published labels ≡ taken labels ++ waiting) × (length waiting ≤ 4)
run-fifo_example = run-fifo 4 four_divides (omega arith) (omega arith) overlapped 0
