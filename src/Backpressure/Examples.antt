-- ===== src/Backpressure/Examples.antt =====
-- The laws of backpressure.hpp at concrete inputs.
use ipb.Base.{ℕ, ◌≡◌, refl, false, List, [], ◌∷◌, some, length}
use ipb.Base.Int.{pos, ◌-ℤ◌}
use ipb.Base.Double.{thousandths}
use ipb.Backpressure.{
  Config, Sensor, Controller, Poll, Strategy, drop_newest, level, queue_pressure, latency_pressure,
  memory_pressure, update_pressure_level, handle_drop_newest, should_accept, count_dropped,
}
use ipb.Backpressure.Counts.{Request, run_requests, Totals, run-Totals}

abbrev config : Strategy → Config thousandths
config strategy = record {
  strategy = strategy;
  low_watermark = 500;
  high_watermark = 800;
  critical_watermark = 950;
  target_latency_ns = 1000000;
  max_latency_ns = 10000000;
  max_memory_bytes = 0;
  sample_rate = 10;
  throttle_step_ns = 100000;
  max_throttle_ns = 100000000;
  hysteresis_ns = 1000000000;
}

abbrev full : Sensor thousandths
full = record { queue_fill = 970; latency_ema_ns = pos 0; memory_bytes = 0 }

abbrev calm : Sensor thousandths
calm = record { queue_fill = 100; latency_ema_ns = pos 0; memory_bytes = 0 }

abbrev controller : Controller
controller = record {
  current_level = 0;
  sample_counter = 0;
  throttle_ns = 0;
  last_level_change_ns = pos 0;
  stats = record {
    items_received = 3;
    items_processed = 2;
    items_dropped = 1;
    items_sampled_out = 0;
    throttle_events = 0;
    block_events = 0;
    total_throttle_ns = 0;
    total_block_ns = 0;
    pressure_changes = 0;
  };
}

abbrev requests : List (Request thousandths)
requests =
    record { sensor = calm; now = pos 5; polls = [] }
    ∷ (record { sensor = full; now = pos 9; polls = [] } ∷ [])

run-Totals_example :
    Totals
      (config drop_newest)
      (length requests)
      controller
      (run_requests (config drop_newest) requests controller)
run-Totals_example = run-Totals (config drop_newest) requests controller

abbrev poll : ℕ → Poll
poll elapsed = record { seen = 4; elapsed = elapsed }

abbrev refused : Controller
refused = record controller {
  current_level = 4;
  last_level_change_ns = pos 7;
  stats = record controller.stats { items_received = 4; items_dropped = 2; pressure_changes = 1 };
}

full-refused : should_accept (config drop_newest) full (pos 7) [] controller ≡ some (false, refused)
unfolding should_accept handle_drop_newest count_dropped level queue_pressure latency_pressure
    memory_pressure update_pressure_level ◌-ℤ◌
full-refused = refl
