-- ===== src/Lockfree/Spsc/Refine.antt =====
-- `SPSCQueue` (lockfree_queue.hpp) implements a bounded first-in first-out queue: every step of an
-- interleaving has the effect on the abstract queue that its label says.
use Prim.Native.Nat.{◌∣◌}
use ipb.Base.{
  ℕ, zero, suc, ◌+◌, ◌-◌, ◌%◌, ◌^◌, ◌≤◌, ◌<◌, ◌≡◌, ◌≢◌, refl, sym, ap, ◌∙◌, inl, inr, false, List,
  [], ◌∷◌, ◌++◌, ◌==◌, ==_iff, length, length-append, arith, Bool-cases,
}
use ipb.Lockfree.Spsc.{
  Queue, Producer, Consumer, Stats, Label, silent, enqueued, full, dequeued, empty, Act,
  call_enqueue, run_producer, call_dequeue, run_consumer, next64, update, begin_enqueue,
  begin_dequeue, produce, consume, act,
}
use ipb.Lockfree.Spsc.Slots.{
  Filled, Free, Filled-write, Filled-store, Filled-release, Filled-append, Free-write, Free-append,
  update_self, wrapped-cell, later-cell,
}

-- A queue of at most `capacity` values: what each effect does to it.
abbrev pub Effect : {A : Type 0} → ℕ → Label A → List A → List A → Type 0
Effect capacity silent values after = after ≡ values
Effect capacity (enqueued v) values after =
    (length values < capacity) × (after ≡ values ++ (v ∷ []))
Effect capacity full values after = (length values ≡ capacity) × (after ≡ values)
Effect capacity (dequeued v) values after = values ≡ v ∷ after
Effect capacity empty values after = (values ≡ []) × (after ≡ values)

next-wrap : (pos h : ℕ) → pos ≡ h % 2 ^ 64 → next64 pos ≡ (h + 1) % 2 ^ 64
next-wrap pos h e = omega arith

Free-tail :
    (capacity : ℕ) (f : ℕ → ℕ) (h n : ℕ)
    → 0 < n
    → Free capacity f h n
    → Free capacity f (h + 1) (n - 1)
Free-tail capacity f h zero pos c = absurd (omega arith)
Free-tail capacity f h (suc n) pos c = let e : suc n - 1 ≡ n = omega arith in rw e c.1

cell :
    (capacity : ℕ)
    → capacity ∣ 2 ^ 64
    → (pos h : ℕ) → pos ≡ h % 2 ^ 64
    → pos % capacity ≡ h % capacity
cell capacity divides pos h e = ap (λ k. k % capacity) e ∙ wrapped-cell capacity h divides

==_ne : (a b : ℕ) → (a == b) ≡ false → a ≢ b
==_ne a b e = λ k. ground (arith, e, k)

module _ {A : Type 0} (capacity : ℕ) where
  -- The producer at the position `h`, with `n` free cells.
  abbrev ProducerAt : ℕ → ℕ → ℕ → (ℕ → A) → Producer A → Type 0
  ProducerAt h n head g Producer.idle = head ≡ h % 2 ^ 64
  ProducerAt h n head g (Producer.loaded v pos) = (pos ≡ h % 2 ^ 64) × (head ≡ h % 2 ^ 64)
  ProducerAt h n head g (Producer.storing v pos) =
      (pos ≡ h % 2 ^ 64) × (head ≡ h % 2 ^ 64) × (0 < n)
  ProducerAt h n head g (Producer.publishing v pos) =
      (pos ≡ h % 2 ^ 64) × (head ≡ h % 2 ^ 64) × (0 < n) × (g (h % capacity) ≡ v)
  ProducerAt h n head g (Producer.advancing v pos) = next64 pos ≡ h % 2 ^ 64

  abbrev Starts : List A → A → Type 0
  Starts [] v = ⊥
  Starts (u ∷ values) v = u ≡ v

  -- The consumer at the position `t`.
  abbrev ConsumerAt : ℕ → List A → ℕ → Consumer A → Type 0
  ConsumerAt t values tail Consumer.idle = tail ≡ t % 2 ^ 64
  ConsumerAt t values tail (Consumer.loaded pos) = (pos ≡ t % 2 ^ 64) × (tail ≡ t % 2 ^ 64)
  ConsumerAt t values tail (Consumer.moving pos) = (pos ≡ t % 2 ^ 64) × (0 < length values)
  ConsumerAt t values tail (Consumer.releasing pos v) = (pos ≡ t % 2 ^ 64) × Starts values v
  ConsumerAt t values tail (Consumer.advancing pos v) = next64 pos ≡ t % 2 ^ 64

  -- The memory holds these values: published from the position `t` on, up to `h`, and `n` cells are free.
  -- Positions count on without wrapping.
  pub record Holds (q : Queue A) (values : List A) : Type 0 where
    pub t : ℕ
    pub h : ℕ
    pub n : ℕ
    pub span : t + length values ≡ h
    pub room : length values + n ≡ capacity
    pub filled : Filled capacity q.sequence q.contents t values
    pub free : Free capacity q.sequence h n
    pub producing : ProducerAt h n q.head q.contents q.producer
    pub consuming : ConsumerAt t values q.tail q.consumer

  -- A step with its effect.
  abbrev pub Implements : List A → Queue A × Label A → Type 0
  Implements values (q, label) =
      (after : List A) × Effect capacity label values after × Holds q after

  module _ (divides : capacity ∣ 2 ^ 64) (two : 2 ≤ capacity) (bounded : capacity < 2 ^ 64) where
    -- The cell at the end of the values is free exactly if there is room.
    Free-test :
        (f : ℕ → ℕ) (g : ℕ → A) (t h n : ℕ) (values : List A)
        → t + length values ≡ h
        → length values + n ≡ capacity
        → Filled capacity f g t values
        → Free capacity f h n
        → (f (h % capacity) ≡ h % 2 ^ 64 → 0 < n) × (f (h % capacity) ≢ h % 2 ^ 64 → n ≡ 0)
    Free-test f g t h (suc n) values e r c d = (λ k. omega arith, λ k. absurd (k d.0))
    Free-test f g t h zero [] e r c d = absurd (omega arith)
    Free-test f g t h zero (v ∷ values) e r c d =
        let wraps : h % capacity ≡ t % capacity =
          ap (λ k. k % capacity) (at_end) ∙ later-cell capacity t in
        (λ k. absurd (not_free (c.0) (ap f (sym wraps) ∙ k)), λ k. refl)
      where
        at_end : h ≡ t + capacity
        at_end = omega arith

        not_free : f (t % capacity) ≡ (t + 1) % 2 ^ 64 → f (t % capacity) ≡ h % 2 ^ 64 → ⊥
        not_free p q = omega (arith, at_end)

    Filled-test :
        (f : ℕ → ℕ) (g : ℕ → A) (t h n : ℕ) (values : List A)
        → t + length values ≡ h
        → length values + n ≡ capacity
        → Filled capacity f g t values
        → Free capacity f h n
        → (f (t % capacity) ≡ next64 (t % 2 ^ 64) → 0 < length values)
          × (f (t % capacity) ≢ next64 (t % 2 ^ 64) → values ≡ [])
    Filled-test f g t h n (v ∷ values) e r c d = (λ k. omega arith, λ k. absurd (k (c.0 ∙ next t)))
      where
        next : (t : ℕ) → (t + 1) % 2 ^ 64 ≡ next64 (t % 2 ^ 64)
        next t = omega arith
    Filled-test f g t h zero [] e r c d = absurd (omega arith)
    Filled-test f g t h (suc n) [] e r c d =
        let k : t ≡ h = omega arith in
        (
          λ p. absurd (
              differ (rw (ap (λ i. f (i % capacity)) k ∙ d.0 ∙ ap (λ i. i % 2 ^ 64) (sym k)) at p)),
          λ p. refl,
        )
      where
        differ : t % 2 ^ 64 ≡ next64 (t % 2 ^ 64) → ⊥
        differ p = omega arith

    Starts-append : (values : List A) (u v : A) → Starts values u → Starts (values ++ (v ∷ [])) u
    Starts-append [] u v s = absurd s
    Starts-append (w ∷ values) u v s = s

    -- An enqueue leaves the consumer where it is.
    ConsumerAt-append :
        (t : ℕ) (values : List A) (v : A) (tail : ℕ) (c : Consumer A)
        → ConsumerAt t values tail c
        → ConsumerAt t (values ++ (v ∷ [])) tail c
    ConsumerAt-append t values v tail Consumer.idle p = p
    ConsumerAt-append t values v tail (Consumer.loaded pos) p = p
    ConsumerAt-append t values v tail (Consumer.moving pos) p =
        let e = length-append values (v ∷ []) in (p.0, omega (arith, p.1, e))
    ConsumerAt-append t values v tail (Consumer.releasing pos u) p =
        (p.0, Starts-append values u v p.1)
    ConsumerAt-append t values v tail (Consumer.advancing pos u) p = p

    -- A dequeue leaves the producer where it is.
    ProducerAt-suc :
        (h n head : ℕ) (g : ℕ → A) (p : Producer A)
        → ProducerAt h n head g p
        → ProducerAt h (suc n) head g p
    ProducerAt-suc h n head g Producer.idle a = a
    ProducerAt-suc h n head g (Producer.loaded v pos) a = a
    ProducerAt-suc h n head g (Producer.storing v pos) a = (a.0, a.1, omega arith)
    ProducerAt-suc h n head g (Producer.publishing v pos) a = (a.0, a.1, omega arith, a.3)
    ProducerAt-suc h n head g (Producer.advancing v pos) a = a

    -- A step of the producer that writes no cell.
    producer-moves :
        (q : Queue A) (values : List A) (a : Holds q values) (p : Producer A) (head : ℕ)
        (stats : Stats)
        → ProducerAt a.h a.n head q.contents p
        → Holds (record q { producer = p; head = head; stats = stats }) values
    producer-moves q values a p head stats at = record {
      t = a.t;
      h = a.h;
      n = a.n;
      span = a.span;
      room = a.room;
      filled = a.filled;
      free = a.free;
      producing = at;
      consuming = a.consuming;
    }

    produce-Implements :
        (p : Producer A) (q : Queue A) (values : List A) (a : Holds q values)
        → ProducerAt a.h a.n q.head q.contents p
        → Implements values (produce capacity p q)
    unfolding produce
    produce-Implements Producer.idle q values a at = (values, refl, a)
    produce-Implements (Producer.loaded v pos) q values a at =
        let e = cell capacity divides pos a.h at.0 in
        let test =
          Free-test q.sequence q.contents a.t a.h a.n values a.span a.room a.filled a.free in
        elim (Bool-cases (q.sequence (pos % capacity) == pos)) [
          | inl same ↦
              let free : q.sequence (a.h % capacity) ≡ a.h % 2 ^ 64 =
                ap q.sequence (sym e) ∙ (==_iff (q.sequence (pos % capacity)) pos).0 same ∙ at.0 in
              rw same (
                values,
                refl,
                producer-moves q values a (Producer.storing v pos) q.head q.stats
                    (at.0, at.1, test.0 free),
              )
          | inr differs ↦
              let taken : q.sequence (a.h % capacity) ≢ a.h % 2 ^ 64 = λ k.
                ==_ne (q.sequence (pos % capacity)) pos differs (ap q.sequence e ∙ k ∙ sym at.0) in
              rw differs (
                values,
                (full_length (test.1 taken) a.room, refl),
                producer-moves q values a Producer.idle q.head
                    (record q.stats { failed_enqueues = next64 q.stats.failed_enqueues }) at.1,
              )
        ]
      where
        full_length : {m n : ℕ} → n ≡ 0 → m + n ≡ capacity → m ≡ capacity
        full_length z r = omega arith
    produce-Implements (Producer.storing v pos) q values a at =
        let e = cell capacity divides pos a.h at.0 in
        let stored =
          Filled-store capacity q.sequence q.contents a.t a.h v values (omega (arith, a.span))
            (omega (arith, a.span, a.room, at.2)) a.filled in
        let written = update_self capacity q.contents (a.h % capacity) v in
        rw e (
          values,
          refl,
          record {
            t = a.t;
            h = a.h;
            n = a.n;
            span = a.span;
            room = a.room;
            filled = stored;
            free = a.free;
            producing = (at.0, at.1, at.2, written);
            consuming = a.consuming;
          },
        )
    produce-Implements (Producer.publishing v pos) q values a at =
        let e = cell capacity divides pos a.h at.0 in
        let w = next64 pos in
        let kept =
          Filled-write capacity q.sequence q.contents a.t a.h w values (omega (arith, a.span))
            (omega (arith, a.span, a.room, at.2)) a.filled in
        let marked = update_self capacity q.sequence (a.h % capacity) w ∙ next-wrap pos a.h at.0 in
        let filled =
          Filled-append capacity (update q.sequence (a.h % capacity) w) q.contents a.t a.h v values
            a.span kept marked at.3 in
        let free =
          Free-write capacity q.sequence (a.h + 1) a.h w (a.n - 1) (omega arith)
            (omega (arith, a.room, at.2)) (Free-tail capacity q.sequence a.h a.n at.2 a.free) in
        let more = length-append values (v ∷ []) in
        rw e (
          values ++ (v ∷ []),
          (omega (arith, a.room, at.2), refl),
          record {
            t = a.t;
            h = a.h + 1;
            n = a.n - 1;
            span = omega (arith, a.span, more);
            room = omega (arith, a.room, at.2, more);
            filled = filled;
            free = free;
            producing = next-wrap pos a.h at.0;
            consuming = ConsumerAt-append a.t values v q.tail q.consumer a.consuming;
          },
        )
    produce-Implements (Producer.advancing v pos) q values a at = (
      values,
      refl,
      producer-moves q values a Producer.idle (next64 pos)
          (record q.stats { enqueues = next64 q.stats.enqueues }) at,
    )

    -- A step of the consumer that writes no cell.
    consumer-moves :
        (q : Queue A) (values : List A) (a : Holds q values) (c : Consumer A) (tail : ℕ)
        (stats : Stats)
        → ConsumerAt a.t values tail c
        → Holds (record q { consumer = c; tail = tail; stats = stats }) values
    consumer-moves q values a c tail stats at = record {
      t = a.t;
      h = a.h;
      n = a.n;
      span = a.span;
      room = a.room;
      filled = a.filled;
      free = a.free;
      producing = a.producing;
      consuming = at;
    }

    -- The first value is the one in the cell at the tail.
    Starts-Filled :
        (f : ℕ → ℕ) (g : ℕ → A) (t : ℕ) (values : List A)
        → 0 < length values
        → Filled capacity f g t values
        → Starts values (g (t % capacity))
    Starts-Filled f g t [] pos c = absurd (omega arith)
    Starts-Filled f g t (v ∷ values) pos c = sym c.1

    -- The release of the first cell, with the values in the cells given apart.
    release :
        (pos : ℕ) (v : A) (q : Queue A) (values : List A) (a : Holds q values)
        → pos ≡ a.t % 2 ^ 64
        → Starts values v
        → Implements values (
          record q {
            sequence = update q.sequence (pos % capacity) ((pos + capacity) % 2 ^ 64);
            consumer = Consumer.advancing pos v;
          },
          dequeued v,
        )
    release pos v q [] a at s = absurd s
    release pos v q (u ∷ values) a at s =
        let e = cell capacity divides pos a.t at in
        let w = (pos + capacity) % 2 ^ 64 in
        let kept =
          Filled-release capacity q.sequence q.contents (a.t + 1) a.t w values (omega arith)
            (omega (arith, a.room)) a.filled.2 in
        let free =
          Free-write capacity q.sequence a.h a.t w a.n (omega (arith, a.span))
            (omega (arith, a.span, a.room)) a.free in
        let last : a.h + a.n ≡ a.t + capacity = omega (arith, a.span, a.room) in
        let at_last : update q.sequence (a.t % capacity) w ((a.t + capacity) % capacity)
            ≡ (a.t + capacity) % 2 ^ 64 =
          ap (λ k. update q.sequence (a.t % capacity) w k) (later-cell capacity a.t)
          ∙ update_self capacity q.sequence (a.t % capacity) w
          ∙ wrap pos a.t at in
        rw e (
          values,
          ap (λ k. k ∷ values) s,
          record {
            t = a.t + 1;
            h = a.h;
            n = suc a.n;
            span = omega (arith, a.span);
            room = omega (arith, a.room);
            filled = kept;
            free =
                Free-append capacity (update q.sequence (a.t % capacity) w) a.h a.n (a.t + capacity)
                  last free at_last;
            producing = ProducerAt-suc a.h a.n q.head q.contents q.producer a.producing;
            consuming = next-wrap pos a.t at;
          },
        )
      where
        wrap : (pos t : ℕ) → pos ≡ t % 2 ^ 64 → (pos + capacity) % 2 ^ 64 ≡ (t + capacity) % 2 ^ 64
        wrap pos t e = omega arith

    consume-Implements :
        (c : Consumer A) (q : Queue A) (values : List A) (a : Holds q values)
        → ConsumerAt a.t values q.tail c
        → Implements values (consume capacity c q)
    unfolding consume
    consume-Implements Consumer.idle q values a at = (values, refl, a)
    consume-Implements (Consumer.loaded pos) q values a at =
        let e = cell capacity divides pos a.t at.0 in
        let test =
          Filled-test q.sequence q.contents a.t a.h a.n values a.span a.room a.filled a.free in
        let next : next64 pos ≡ next64 (a.t % 2 ^ 64) = ap next64 at.0 in
        elim (Bool-cases (q.sequence (pos % capacity) == next64 pos)) [
          | inl same ↦
              let filled : q.sequence (a.t % capacity) ≡ next64 (a.t % 2 ^ 64) =
                ap q.sequence (sym e)
                ∙ (==_iff (q.sequence (pos % capacity)) (next64 pos)).0 same
                ∙ next in
              rw same (
                values,
                refl,
                consumer-moves q values a (Consumer.moving pos) q.tail q.stats
                    (at.0, test.0 filled),
              )
          | inr differs ↦
              let vacant : q.sequence (a.t % capacity) ≢ next64 (a.t % 2 ^ 64) = λ k.
                ==_ne (q.sequence (pos % capacity)) (next64 pos) differs
                  (ap q.sequence e ∙ k ∙ sym next) in
              rw differs (
                values,
                (test.1 vacant, refl),
                consumer-moves q values a Consumer.idle q.tail
                    (record q.stats { failed_dequeues = next64 q.stats.failed_dequeues }) at.1,
              )
        ]
    consume-Implements (Consumer.moving pos) q values a at =
        let e = cell capacity divides pos a.t at.0 in
        rw e (
          values,
          refl,
          consumer-moves q values a (Consumer.releasing pos (q.contents (a.t % capacity))) q.tail
              q.stats (at.0, Starts-Filled q.sequence q.contents a.t values at.1 a.filled),
        )
    consume-Implements (Consumer.releasing pos v) q values a at = release pos v q values a at.0 at.1
    consume-Implements (Consumer.advancing pos v) q values a at = (
      values,
      refl,
      consumer-moves q values a Consumer.idle (next64 pos)
          (record q.stats { dequeues = next64 q.stats.dequeues }) at,
    )

    begin_enqueue-Implements :
        (v : A) (p : Producer A) (q : Queue A) (values : List A) (a : Holds q values)
        → ProducerAt a.h a.n q.head q.contents p
        → Holds (begin_enqueue capacity v p q) values
    begin_enqueue-Implements v Producer.idle q values a at =
        producer-moves q values a (Producer.loaded v q.head) q.head q.stats (at, at)
    begin_enqueue-Implements v (Producer.loaded u pos) q values a at = a
    begin_enqueue-Implements v (Producer.storing u pos) q values a at = a
    begin_enqueue-Implements v (Producer.publishing u pos) q values a at = a
    begin_enqueue-Implements v (Producer.advancing u pos) q values a at = a

    begin_dequeue-Implements :
        (c : Consumer A) (q : Queue A) (values : List A) (a : Holds q values)
        → ConsumerAt a.t values q.tail c
        → Holds (begin_dequeue capacity c q) values
    begin_dequeue-Implements Consumer.idle q values a at =
        consumer-moves q values a (Consumer.loaded q.tail) q.tail q.stats (at, at)
    begin_dequeue-Implements (Consumer.loaded pos) q values a at = a
    begin_dequeue-Implements (Consumer.moving pos) q values a at = a
    begin_dequeue-Implements (Consumer.releasing pos u) q values a at = a
    begin_dequeue-Implements (Consumer.advancing pos u) q values a at = a

    -- Where the memory holds some values, in any state of the two calls, every step of either thread has on
    -- those values the effect of its label: nothing, a value added behind where there is room, a refusal
    -- when they are `capacity` many, the first value taken, a refusal when there is none. It leaves a
    -- memory that holds the values after it. The capacity is at least 2, divides 2^64 and is less than it.
    pub act-Implements :
        (step : Act A) (q : Queue A) (values : List A)
        → Holds q values
        → Implements values (act capacity step q)
    unfolding act
    act-Implements (call_enqueue v) q values a =
        (values, refl, begin_enqueue-Implements v q.producer q values a a.producing)
    act-Implements run_producer q values a = produce-Implements q.producer q values a a.producing
    act-Implements call_dequeue q values a =
        (values, refl, begin_dequeue-Implements q.consumer q values a a.consuming)
    act-Implements run_consumer q values a = consume-Implements q.consumer q values a a.consuming
