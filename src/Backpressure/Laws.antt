-- ===== src/Backpressure/Laws.antt =====
-- What `PressureSensor` and the handlers of `BackpressureController` (backpressure.hpp) promise.
use ipb.Base.{
  ℕ, ◌≤◌, ◌≡◌, ◌≢◌, max, true, List, [], ◌∷◌, ◌++◌, none, ltb, leb, arith, Bool-cases, inl, inr,
}
use ipb.Base.Int.{ℤ, pos, ◌≤ℤ◌, ◌<ℤ◌, ◌-ℤ◌}
use ipb.Base.Double.{Doubles}
use ipb.Backpressure.{
  Config, Sensor, Controller, Poll, latency_pressure, level, update_pressure_level, wait,
  handle_block, throttle_delay, high, plus64,
}

-- A longer latency, the rest of the sensor unchanged, never gives a lower pressure level.
pub level-latency :
    (D : Doubles) (c : Config D) (s : Sensor D) (a b : ℤ)
    → a ≤ℤ b
    → level D c (record s { latency_ema_ns = a }) ≤ level D c (record s { latency_ema_ns = b })
unfolding level latency_pressure
level-latency D c s a b h = omega (arith, rises D c a b h)
  where
    rises :
        (D : Doubles) (c : Config D) (a b : ℤ)
        → a ≤ℤ b
        → latency_pressure D c a ≤ latency_pressure D c b
    rises D c a b h = ground arith

-- The throttle delay is at most the configured maximum, and does not fall as the pressure level rises,
-- for the levels up to CRITICAL.
pub throttle_delay_mono :
    (step limit a b : ℕ)
    → a ≤ b
    → b ≤ 4
    → (throttle_delay step limit a ≤ throttle_delay step limit b)
      × (throttle_delay step limit b ≤ limit)
unfolding throttle_delay
throttle_delay_mono step limit a b h k = (ground arith, ground arith)

-- Within the hysteresis time after a change the level does not fall; a rise is taken at once, and after
-- that time every new level is.
pub update_pressure_level_lem :
    (hysteresis : ℕ) (now : ℤ) (new : ℕ) (k : Controller)
    → let k' = update_pressure_level hysteresis now new k in
      (now -ℤ k.last_level_change_ns <ℤ pos hysteresis → k'.current_level ≡ max k.current_level new)
      × (pos hysteresis ≤ℤ now -ℤ k.last_level_change_ns → k'.current_level ≡ new)
unfolding update_pressure_level
update_pressure_level_lem hysteresis now new k = (λ soon. ground arith, λ later. ground arith)

wait-last :
    (limit : ℕ) (p : Poll) (polls : List Poll) (k : Controller)
    → limit ≤ p.elapsed
    → wait limit (p ∷ polls) k ≢ none
unfolding wait
wait-last limit p polls k h =
    let e : leb limit p.elapsed ≡ true = ground arith in
    elim (Bool-cases (ltb p.seen high)) [ inl f ↦ rw f (λ n. cc) | inr f ↦ rw (f, e) (λ n. cc) ]

wait-more :
    (limit : ℕ) (p : Poll) (polls : List Poll) (k : Controller)
    → wait limit polls k ≢ none
    → wait limit (p ∷ polls) k ≢ none
unfolding wait
wait-more limit p polls k h = elim (Bool-cases (ltb p.seen high)) [
  | inl f ↦ rw f (λ n. cc)
  | inr f ↦ elim (Bool-cases (leb limit p.elapsed)) [
    | inl e ↦ rw (f, e) (λ n. cc)
    | inr e ↦ rw (f, e) h
  ]
]

-- A call of the BLOCK strategy returns at the latest when a turn of its loop reads a time of the maximum
-- delay or more.
pub handle_block-ne-none :
    (limit level : ℕ) (front : List Poll) (p : Poll) (back : List Poll) (k : Controller)
    → limit ≤ p.elapsed
    → handle_block limit (front ++ (p ∷ back)) level k ≢ none
unfolding handle_block
handle_block-ne-none limit level front p back k h = elim (Bool-cases (ltb level high)) [
  | inl e ↦ rw e (λ n. cc)
  | inr e ↦ rw e (
      waits front
        (record k { stats = record k.stats { block_events = plus64 1 k.stats.block_events } }))
]
  where
    waits : (front : List Poll) (k : Controller) → wait limit (front ++ (p ∷ back)) k ≢ none
    waits [] k = wait-last limit p back k h
    waits (q ∷ front) k = wait-more limit q (front ++ (p ∷ back)) k (waits front k)
