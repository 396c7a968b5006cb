-- ===== src/Lockfree/Spsc.antt =====
-- core/common/include/ipb/common/lockfree_queue.hpp: `SPSCQueue`, one access to shared memory at a time.
-- The producer and the consumer each hold a place in their call; any order of their steps is an
-- interleaving. Stores are seen in the order in which they are made, which is what the release stores
-- and acquire loads of `sequence` ask for; `head_` and `tail_` are each read by their own thread only.
pub mod Slots
pub mod Refine
pub mod Runs
pub mod Single
use ipb.Base.{
  ℕ, ◌+◌, ◌%◌, ◌^◌, Bool, true, false, List, [], ◌∷◌, Option, none, some, if◌then◌else◌, ◌==◌, leb,
  ◌-◌,
}

-- Where the producer stands in `try_enqueue`: outside; with `pos` loaded; with the slot found free; with
-- the value stored; with the slot published.
pub data Producer (A : Type 0) : Type 0 where
  idle : Producer A
  loaded : A → ℕ → Producer A
  storing : A → ℕ → Producer A
  publishing : A → ℕ → Producer A
  advancing : A → ℕ → Producer A

-- Where the consumer stands in `try_dequeue`.
pub data Consumer (A : Type 0) : Type 0 where
  idle : Consumer A
  loaded : ℕ → Consumer A
  moving : ℕ → Consumer A
  releasing : ℕ → A → Consumer A
  advancing : ℕ → A → Consumer A

-- `LockFreeQueueStats`, on uint64_t; `spins` is never counted here.
pub record Stats : Type 0 where
  pub enqueues : ℕ
  pub dequeues : ℕ
  pub failed_enqueues : ℕ
  pub failed_dequeues : ℕ

-- The shared memory, a cell's `sequence` and `data` by its index, and the two threads.
pub record Queue (A : Type 0) : Type 0 where
  pub sequence : ℕ → ℕ
  pub contents : ℕ → A
  pub head : ℕ
  pub tail : ℕ
  pub producer : Producer A
  pub consumer : Consumer A
  pub stats : Stats

-- What a step does that the callers can tell: an enqueue takes effect, or finds the queue full; a dequeue
-- takes effect, or finds the queue empty; a call returns.
pub data Label (A : Type 0) : Type 0 where
  silent : Label A
  enqueued : A → Label A
  full : Label A
  dequeued : A → Label A
  empty : Label A

-- The steps that a scheduler can choose from.
pub data Act (A : Type 0) : Type 0 where
  call_enqueue : A → Act A
  run_producer : Act A
  call_dequeue : Act A
  run_consumer : Act A

abbrev pub next64 : ℕ → ℕ
next64 n = (n + 1) % 2 ^ 64

-- A write to one cell.
abbrev pub update {ℓ} : {B : Type ℓ} → (ℕ → B) → ℕ → B → ℕ → B
update f i v j = if j == i then v else f j

module _ {A : Type 0} (capacity : ℕ) where
  -- The constructor.
  unfoldable pub fresh : A → Queue A
  fresh filler = record {
    sequence = λ i. i;
    contents = λ i. filler;
    head = 0;
    tail = 0;
    producer = Producer.idle;
    consumer = Consumer.idle;
    stats = record { enqueues = 0; dequeues = 0; failed_enqueues = 0; failed_dequeues = 0 };
  }

  -- A call begins where the thread is outside any call.
  abbrev begin_enqueue : A → Producer A → Queue A → Queue A
  begin_enqueue v Producer.idle q = record q { producer = Producer.loaded v q.head }
  begin_enqueue v _ q = q

  abbrev begin_dequeue : Consumer A → Queue A → Queue A
  begin_dequeue Consumer.idle q = record q { consumer = Consumer.loaded q.tail }
  begin_dequeue _ q = q

  abbrev counted_full : Queue A → Queue A
  counted_full q = record q {
    producer = Producer.idle;
    stats = record q.stats { failed_enqueues = next64 q.stats.failed_enqueues };
  }

  abbrev counted_empty : Queue A → Queue A
  counted_empty q = record q {
    consumer = Consumer.idle;
    stats = record q.stats { failed_dequeues = next64 q.stats.failed_dequeues };
  }

  -- `try_enqueue`, by its next access to the memory. `pos & MASK` is a remainder.
  unfoldable pub produce : Producer A → Queue A → Queue A × Label A
  produce Producer.idle q = (q, silent)
  produce (Producer.loaded v pos) q =
      if q.sequence (pos % capacity) == pos
      then (record q { producer = Producer.storing v pos }, silent)
      else (counted_full q, full)
  produce (Producer.storing v pos) q = (
    record q {
      contents = update q.contents (pos % capacity) v;
      producer = Producer.publishing v pos;
    },
    silent,
  )
  produce (Producer.publishing v pos) q = (
    record q {
      sequence = update q.sequence (pos % capacity) (next64 pos);
      producer = Producer.advancing v pos;
    },
    enqueued v,
  )
  produce (Producer.advancing v pos) q = (
    record q {
      head = next64 pos;
      producer = Producer.idle;
      stats = record q.stats { enqueues = next64 q.stats.enqueues };
    },
    silent,
  )

  -- `try_dequeue`, by its next access to the memory.
  unfoldable pub consume : Consumer A → Queue A → Queue A × Label A
  consume Consumer.idle q = (q, silent)
  consume (Consumer.loaded pos) q =
      if q.sequence (pos % capacity) == next64 pos
      then (record q { consumer = Consumer.moving pos }, silent)
      else (counted_empty q, empty)
  consume (Consumer.moving pos) q =
      (record q { consumer = Consumer.releasing pos (q.contents (pos % capacity)) }, silent)
  consume (Consumer.releasing pos v) q = (
    record q {
      sequence = update q.sequence (pos % capacity) ((pos + capacity) % 2 ^ 64);
      consumer = Consumer.advancing pos v;
    },
    dequeued v,
  )
  consume (Consumer.advancing pos v) q = (
    record q {
      tail = next64 pos;
      consumer = Consumer.idle;
      stats = record q.stats { dequeues = next64 q.stats.dequeues };
    },
    silent,
  )

  -- One step of the interleaving.
  unfoldable pub act : Act A → Queue A → Queue A × Label A
  act (call_enqueue v) q = (begin_enqueue v q.producer q, silent)
  act run_producer q = produce q.producer q
  act call_dequeue q = (begin_dequeue q.consumer q, silent)
  act run_consumer q = consume q.consumer q

  -- `size_approx`
  unfoldable pub size_approx : Queue A → ℕ
  size_approx q = if leb q.tail q.head then q.head - q.tail else 0
