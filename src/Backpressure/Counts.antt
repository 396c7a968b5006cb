-- ===== src/Backpressure/Counts.antt =====
-- The counts of `BackpressureController` and `BackpressureStage` (backpressure.hpp).
use ipb.Base.{
  ℕ, suc, ◌+◌, ◌%◌, ◌^◌, ◌≡◌, refl, Bool, true, false, List, [], ◌∷◌, Option, none, some,
  if◌then◌else◌, ltb, leb, length, arith, Bool-cases, inl, inr,
}
use mathlib.Core.Path.{subst}
use ipb.Base.Int.{ℤ}
use ipb.Base.Double.{Doubles}
use ipb.Backpressure.{
  Config, Sensor, Controller, Poll, Strategy, drop_oldest, drop_newest, block, sample, throttle,
  by_strategy, plus64, level, high, count_dropped, update_pressure_level, wait, handle_block,
  handle_drop_newest, handle_sample, handle_throttle, should_accept, process, finish,
}

-- A call that accepts drops nothing, one that refuses drops one item; the count of items received stays.
abbrev Drops : Controller → Bool × Controller → Type 0
Drops k (accepted, k') =
    (k'.stats.items_received ≡ k.stats.items_received)
    × ((k'.stats.items_dropped + (if accepted then 1 else 0)) % 2 ^ 64
        ≡ (k.stats.items_dropped + 1) % 2 ^ 64)

abbrev MaybeDrops : Controller → Option (Bool × Controller) → Type 0
MaybeDrops k none = Unit
MaybeDrops k (some r) = Drops k r

drop_newest-Drops : (n : ℕ) (k : Controller) → Drops k (handle_drop_newest n k)
unfolding handle_drop_newest count_dropped
drop_newest-Drops n k = elim (Bool-cases (leb 4 n)) [
  | inl e ↦ rw e (refl, omega arith)
  | inr e ↦ rw e (refl, refl)
]

sample-Drops : (rate n : ℕ) (k : Controller) → Drops k (handle_sample rate n k)
unfolding handle_sample count_dropped
sample-Drops rate n k = ground arith

throttle-Drops : (step limit n : ℕ) (k : Controller) → Drops k (handle_throttle step limit n k)
unfolding handle_throttle
throttle-Drops step limit n k = ground arith

wait-Drops : (limit : ℕ) (polls : List Poll) (k : Controller) → MaybeDrops k (wait limit polls k)
unfolding wait count_dropped
wait-Drops limit [] k = tt
wait-Drops limit (p ∷ polls) k = elim (Bool-cases (ltb p.seen high)) [
  | inl f ↦ rw f (refl, refl)
  | inr f ↦ elim (Bool-cases (leb limit p.elapsed)) [
    | inl e ↦ rw (f, e) (refl, omega arith)
    | inr e ↦ rw (f, e) (wait-Drops limit polls k)
  ]
]

block-Drops :
    (limit : ℕ) (polls : List Poll) (n : ℕ) (k : Controller)
    → MaybeDrops k (handle_block limit polls n k)
unfolding handle_block
block-Drops limit polls n k = elim (Bool-cases (ltb n high)) [
  | inl e ↦ rw e (refl, refl)
  | inr e ↦ rw e (
      wait-Drops limit polls
        (record k { stats = record k.stats { block_events = plus64 1 k.stats.block_events } }))
]

by_strategy-Drops :
    {D : Doubles} (c : Config D) (s : Strategy) (polls : List Poll) (n : ℕ) (k : Controller)
    → MaybeDrops k (by_strategy c s polls n k)
by_strategy-Drops c drop_oldest polls n k = (refl, refl)
by_strategy-Drops c drop_newest polls n k = drop_newest-Drops n k
by_strategy-Drops c block polls n k = block-Drops c.max_throttle_ns polls n k
by_strategy-Drops c sample polls n k = sample-Drops c.sample_rate n k
by_strategy-Drops c throttle polls n k = throttle-Drops c.throttle_step_ns c.max_throttle_ns n k

update-counts :
    (hysteresis : ℕ) (now : ℤ) (new : ℕ) (k : Controller)
    → let k' = update_pressure_level hysteresis now new k in
      (k'.stats.items_received ≡ k.stats.items_received)
      × (k'.stats.items_dropped ≡ k.stats.items_dropped)
unfolding update_pressure_level
update-counts hysteresis now new k = ground arith

-- One request: the sensor, the clock, and what a blocked call sees.
pub record Request (D : Doubles) : Type 0 where
  pub sensor : Sensor D
  pub now : ℤ
  pub polls : List Poll

-- One more call, accepted or not, before a run that accepted `n` items.
abbrev add_call : Bool → Option (ℕ × Controller) → Option (ℕ × Controller)
add_call accepted none = none
add_call accepted (some (n, k)) = some ((if accepted then 1 else 0) + n, k)

module _ {D : Doubles} (c : Config D) where
  -- What a call changes in the counts.
  abbrev Counted : Controller → Option (Bool × Controller) → Type 0
  Counted k none = Unit
  Counted k (some (accepted, k')) =
      (k'.stats.items_received ≡ plus64 1 k.stats.items_received)
      × ((k'.stats.items_dropped + (if accepted then 1 else 0)) % 2 ^ 64
          ≡ (k.stats.items_dropped + 1) % 2 ^ 64)

  -- Every call of `should_accept` that returns, by any strategy, counts one item received, and counts it
  -- as dropped exactly if it refuses it.
  pub should_accept-Counted :
      (s : Sensor D) (now : ℤ) (polls : List Poll) (k : Controller)
      → Counted k (should_accept c s now polls k)
  unfolding should_accept
  should_accept-Counted s now polls k =
      let received : Controller = record k {
        stats = record k.stats { items_received = plus64 1 k.stats.items_received };
      } in
      let updated : Controller = update_pressure_level c.hysteresis_ns now (level D c s) received in
      let u = update-counts c.hysteresis_ns now (level D c s) received in
      combine (by_strategy c c.strategy polls (level D c s) updated) k updated
        (by_strategy-Drops c c.strategy polls (level D c s) updated) u.0 u.1
    where
      combine :
          (o : Option (Bool × Controller)) (k updated : Controller)
          → MaybeDrops updated o
          → updated.stats.items_received ≡ plus64 1 k.stats.items_received
          → updated.stats.items_dropped ≡ k.stats.items_dropped
          → Counted k o
      combine none k updated h e f = tt
      combine (some (accepted, k')) k updated h e f = (omega (arith, h.0, e), rw (← f) h.1)

  -- Requests in order: how many were accepted, if all calls returned.
  abbrev pub run_requests : List (Request D) → Controller → Option (ℕ × Controller)
  run_requests [] k = some (0, k)
  run_requests (r ∷ rs) k = elim (should_accept c r.sensor r.now r.polls k) [
    | none ↦ none
    | some (accepted, k') ↦ add_call accepted (run_requests rs k')
  ]

  -- The counts after `m` calls.
  abbrev pub Totals : ℕ → Controller → Option (ℕ × Controller) → Type 0
  Totals m k none = Unit
  Totals m k (some (n, k')) =
      (k'.stats.items_received % 2 ^ 64 ≡ (k.stats.items_received + m) % 2 ^ 64)
      × ((k'.stats.items_dropped + n) % 2 ^ 64 ≡ (k.stats.items_dropped + m) % 2 ^ 64)

  -- In any run of calls of `should_accept` that return, by any strategy, each item is counted as received,
  -- and the items that were refused are those counted as dropped, modulo 2^64.
  pub run-Totals :
      (rs : List (Request D)) (k : Controller) → Totals (length rs) k (run_requests rs k)
  run-Totals [] k = (omega arith, omega arith)
  run-Totals (r ∷ rs) k =
      go (should_accept c r.sensor r.now r.polls k) (should_accept-Counted r.sensor r.now r.polls k)
        (run-Totals rs)
    where
      add :
          (accepted : Bool) (m : ℕ) (k k' : Controller) (o : Option (ℕ × Controller))
          → Counted k (some (accepted, k'))
          → Totals m k' o
          → Totals (suc m) k (add_call accepted o)
      add accepted m k k' none h t = tt
      add accepted m k k' (some (n, k'')) h t = (omega (arith, h.0, t.0), omega (arith, h.1, t.1))

      go :
          (o : Option (Bool × Controller))
          → Counted k o
          → ((k' : Controller) → Totals (length rs) k' (run_requests rs k'))
          → Totals (suc (length rs)) k (elim o [
            | none ↦ none
            | some (accepted, k') ↦ add_call accepted (run_requests rs k')
          ])
      go none h t = tt
      go (some (accepted, k')) h t = add accepted (length rs) k k' (run_requests rs k') h (t k')

  -- `BackpressureStage::process` counts an item that `should_accept` refused as dropped twice.
  pub process_drops_twice :
      (s : Sensor D) (now : ℤ) (polls : List Poll) (made : Bool) (elapsed : ℤ) (k k' : Controller)
      → should_accept c s now polls k ≡ some (false, k')
      → (k'' : Controller) × (process c s now polls made elapsed k ≡ some (false, s, k''))
        × (k''.stats.items_dropped ≡ (k.stats.items_dropped + 2) % 2 ^ 64)
  unfolding process count_dropped
  process_drops_twice s now polls made elapsed k k' e =
      let h : Counted k (some (false, k')) =
        subst (Counted k) e (should_accept-Counted s now polls k) in
      (count_dropped k', rw e (go made), omega (arith, h.1))
    where
      go :
          (made : Bool)
          → finish c s made elapsed (some (false, k')) ≡ some (false, s, count_dropped k')
      go true = refl
      go false = refl
