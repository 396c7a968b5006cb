-- ===== src/Backpressure.antt =====
-- core/common/include/ipb/common/backpressure.hpp: `PressureSensor`, `BackpressureController` and
-- `BackpressureStage::process`, one call at a time. Configured durations are not negative. The clock, and
-- what the sensor says while a call is blocked, are arguments; sleeping and spinning are left out.
pub mod Laws
pub mod Counts
mod Examples
use ipb.Base.{
  ℕ, ◌+◌, ◌*◌, ◌/◌, ◌%◌, ◌^◌, min, max, Bool, true, false, not, ◌&&◌, List, [], ◌∷◌, Option, none,
  some, if◌then◌else◌, ltb, leb, ◌==◌,
}
use ipb.Base.Int.{ℤ, pos, ◌-ℤ◌, ltb_ℤ, leb_ℤ}
use ipb.Base.Double.{Doubles}

-- `PressureLevel` by its number: NONE, LOW, MEDIUM, HIGH, CRITICAL.
abbrev pub none_level : ℕ
none_level = 0

abbrev pub low : ℕ
low = 1

abbrev pub medium : ℕ
medium = 2

abbrev pub high : ℕ
high = 3

abbrev pub critical : ℕ
critical = 4

pub data Strategy : Type 0 where
  drop_oldest drop_newest block sample throttle : Strategy

-- The part of `BackpressureConfig` that the code reads.
pub record Config (D : Doubles) : Type 0 where
  pub strategy : Strategy
  pub low_watermark : D.Double
  pub high_watermark : D.Double
  pub critical_watermark : D.Double
  pub target_latency_ns : ℕ
  pub max_latency_ns : ℕ
  pub max_memory_bytes : ℕ
  pub sample_rate : ℕ
  pub throttle_step_ns : ℕ
  pub max_throttle_ns : ℕ
  pub hysteresis_ns : ℕ

pub record Sensor (D : Doubles) : Type 0 where
  pub queue_fill : D.Double
  pub latency_ema_ns : ℤ
  pub memory_bytes : ℕ

module _ (D : Doubles) where
  open D use {of_int, decimal, add, mul, div, le, lt, to_int}

  -- `update_queue_fill`
  unfoldable pub update_queue_fill : ℕ → ℕ → Sensor D → Sensor D
  update_queue_fill current capacity s =
      if capacity == 0
      then s
      else record s { queue_fill = div (of_int (pos current)) (of_int (pos capacity)) }

  -- `update_latency`
  unfoldable pub update_latency : ℤ → Sensor D → Sensor D
  update_latency latency s = record s {
    latency_ema_ns =
        to_int
          (add (mul (decimal 1 1) (of_int latency)) (mul (decimal 9 1) (of_int s.latency_ema_ns)));
  }

  -- `update_memory`
  unfoldable pub update_memory : ℕ → Sensor D → Sensor D
  update_memory bytes s = record s { memory_bytes = bytes }

  -- The three parts of `level`.
  unfoldable pub queue_pressure : Config D → D.Double → ℕ
  queue_pressure c fill =
      if le c.critical_watermark fill
      then critical
      else if le c.high_watermark fill
      then high
      else if le c.low_watermark fill
      then medium
      else if lt (decimal 25 2) fill
      then low
      else none_level

  unfoldable pub latency_pressure : Config D → ℤ → ℕ
  latency_pressure c latency =
      if leb_ℤ (pos c.max_latency_ns) latency
      then critical
      else if leb_ℤ (pos (c.max_latency_ns * 3 / 4)) latency
      then high
      else if leb_ℤ (pos (c.target_latency_ns * 2)) latency
      then medium
      else if leb_ℤ (pos c.target_latency_ns) latency
      then low
      else none_level

  abbrev by_ratio : D.Double → ℕ
  by_ratio ratio =
      if le (decimal 95 2) ratio
      then critical
      else if le (decimal 80 2) ratio
      then high
      else if le (decimal 60 2) ratio
      then medium
      else if le (decimal 40 2) ratio
      then low
      else none_level

  unfoldable pub memory_pressure : Config D → ℕ → ℕ
  memory_pressure c memory =
      if ltb 0 c.max_memory_bytes
      then by_ratio (div (of_int (pos memory)) (of_int (pos c.max_memory_bytes)))
      else none_level

  -- `level`
  unfoldable pub level : Config D → Sensor D → ℕ
  level c s =
      max (max (queue_pressure c s.queue_fill) (latency_pressure c s.latency_ema_ns))
        (memory_pressure c s.memory_bytes)

-- `BackpressureStats`, on uint64_t.
pub record Stats : Type 0 where
  pub items_received : ℕ
  pub items_processed : ℕ
  pub items_dropped : ℕ
  pub items_sampled_out : ℕ
  pub throttle_events : ℕ
  pub block_events : ℕ
  pub total_throttle_ns : ℕ
  pub total_block_ns : ℕ
  pub pressure_changes : ℕ

pub record Controller : Type 0 where
  pub current_level : ℕ
  pub sample_counter : ℕ
  pub throttle_ns : ℕ
  pub last_level_change_ns : ℤ
  pub stats : Stats

abbrev pub plus64 : ℕ → ℕ → ℕ
plus64 n a = (a + n) % 2 ^ 64

-- `item_processed`
unfoldable pub count_processed : Controller → Controller
count_processed k = record k {
  stats = record k.stats { items_processed = plus64 1 k.stats.items_processed };
}

-- `item_dropped`, and what the handlers do where they refuse an item.
unfoldable pub count_dropped : Controller → Controller
count_dropped k = record k {
  stats = record k.stats { items_dropped = plus64 1 k.stats.items_dropped };
}

-- `update_pressure_level`: soon after a change the level may only rise.
unfoldable pub update_pressure_level : ℕ → ℤ → ℕ → Controller → Controller
update_pressure_level hysteresis now new k =
    if new == k.current_level
    then k
    else if ltb_ℤ (now -ℤ k.last_level_change_ns) (pos hysteresis) && leb new k.current_level
    then k
    else record k {
      current_level = new;
      last_level_change_ns = now;
      stats = record k.stats { pressure_changes = plus64 1 k.stats.pressure_changes };
    }

unfoldable pub handle_drop_newest : ℕ → Controller → Bool × Controller
handle_drop_newest level k = if leb critical level then (false, count_dropped k) else (true, k)

-- What one turn of the waiting loop sees: the level, and the time since the call.
pub record Poll : Type 0 where
  pub seen : ℕ
  pub elapsed : ℕ

-- The loop of `handle_block`, over what its turns see and the time of the last reading of the clock.
-- A call that still waits when these run out gives none.
unfoldable pub wait : ℕ → List Poll → Controller → Option (Bool × Controller)
wait limit [] k = none
wait limit (p ∷ polls) k =
    let rest = wait limit polls k in
    let timed = record k {
      stats = record k.stats { total_block_ns = plus64 p.elapsed k.stats.total_block_ns };
    } in
    if ltb p.seen high
    then some (true, timed)
    else if leb limit p.elapsed
    then some (false, count_dropped timed)
    else rest

unfoldable pub handle_block : ℕ → List Poll → ℕ → Controller → Option (Bool × Controller)
handle_block limit polls level k =
    let entered = record k {
      stats = record k.stats { block_events = plus64 1 k.stats.block_events };
    } in
    if ltb level high then some (true, k) else wait limit polls entered

-- The dynamic rate, on a size_t.
abbrev rate_at : ℕ → ℕ → ℕ
rate_at rate level =
    if leb critical level
    then rate * 4 % 2 ^ 64
    else if leb high level
    then rate * 2 % 2 ^ 64
    else rate

-- `handle_sample`
unfoldable pub handle_sample : ℕ → ℕ → Controller → Bool × Controller
handle_sample rate level k =
    let counted = record k { sample_counter = plus64 1 k.sample_counter } in
    let out = record counted {
      stats = record k.stats { items_sampled_out = plus64 1 k.stats.items_sampled_out };
    } in
    if ltb level medium
    then (true, k)
    else if k.sample_counter % rate_at rate level == 0
    then (true, counted)
    else (false, count_dropped out)

-- The delay of `handle_throttle`.
unfoldable pub throttle_delay : ℕ → ℕ → ℕ → ℕ
throttle_delay step limit level =
    min
      (if level == none_level
        then 0
        else if level == low
        then step
        else if level == medium
        then step * 4
        else if level == high
        then step * 16
        else limit)
      limit

unfoldable pub handle_throttle : ℕ → ℕ → ℕ → Controller → Bool × Controller
handle_throttle step limit level k =
    let delay = throttle_delay step limit level in
    let delayed = record k { throttle_ns = delay } in
    if ltb 0 delay
    then (
      true,
      record delayed {
        stats = record k.stats {
          throttle_events = plus64 1 k.stats.throttle_events;
          total_throttle_ns = plus64 delay k.stats.total_throttle_ns;
        };
      },
    )
    else (true, delayed)

module _ {D : Doubles} (c : Config D) where
  abbrev by_strategy : Strategy → List Poll → ℕ → Controller → Option (Bool × Controller)
  by_strategy drop_oldest polls level k = some (true, k)
  by_strategy drop_newest polls level k = some (handle_drop_newest level k)
  by_strategy block polls level k = handle_block c.max_throttle_ns polls level k
  by_strategy sample polls level k = some (handle_sample c.sample_rate level k)
  by_strategy throttle polls level k =
      some (handle_throttle c.throttle_step_ns c.max_throttle_ns level k)

  -- `should_accept`, at the time `now`.
  unfoldable pub should_accept : Sensor D → ℤ → List Poll → Controller → Option (Bool × Controller)
  should_accept s now polls k =
      let received = record k {
        stats = record k.stats { items_received = plus64 1 k.stats.items_received };
      } in
      by_strategy c.strategy polls (level D c s)
        (update_pressure_level c.hysteresis_ns now (level D c s) received)

  abbrev finish :
      Sensor D → Bool → ℤ → Option (Bool × Controller) → Option (Bool × Sensor D × Controller)
  finish s made elapsed none = none
  finish s made elapsed (some (false, k)) = some (false, s, count_dropped k)
  finish s true elapsed (some (true, k)) =
      some (true, update_latency D elapsed s, count_processed k)
  finish s false elapsed (some (true, k)) =
      some (false, update_latency D elapsed s, count_dropped k)

  -- `BackpressureStage::process`, where the processor makes an output or not, in the time `elapsed`.
  unfoldable pub process :
      Sensor D → ℤ → List Poll → Bool → ℤ → Controller → Option (Bool × Sensor D × Controller)
  process s now polls made elapsed k = finish s made elapsed (should_accept s now polls k)
