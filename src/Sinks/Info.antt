-- ===== src/Sinks/Info.antt =====
-- core/components/include/ipb/core/sink_registry/sink_registry.hpp: a sink's record.
use Prim.Native.String.{String}
use ipb.Base.{ℕ, Bool, true, false, List, [], ◌∷◌, not, ◌&&◌, if◌then◌else◌}
use ipb.Base.Int.{ℤ}

pub data SinkHealth : Type 0 where
  healthy degraded unhealthy unknown : SinkHealth

-- `SinkInfo` without the shared pointer to the sink itself, the health message and the time of the
-- last check. Counters are unsigned 64-bit; `pending_count` and `total_latency_ns` are signed.
pub record SinkInfo : Type 0 where
  pub id : String
  pub weight : ℕ
  pub enabled : Bool
  pub priority : ℕ
  pub health : SinkHealth
  pub messages_sent : ℕ
  pub messages_failed : ℕ
  pub total_latency_ns : ℤ
  pub pending_count : ℤ

abbrev pub is_unhealthy : SinkHealth → Bool
is_unhealthy unhealthy = true
is_unhealthy _ = false

-- `sink->enabled && sink->health != SinkHealth::UNHEALTHY`
abbrev pub is_available : SinkInfo → Bool
is_available s = s.enabled && not (is_unhealthy s.health)

-- The loop that the balancers begin with.
unfoldable pub available : List SinkInfo → List SinkInfo
available [] = []
available (s ∷ candidates) =
    let rest = available candidates in if is_available s then s ∷ rest else rest
