-- ===== src/Sinks/Registry/Writing.antt =====
-- core/components/src/sink_registry/sink_registry.cpp: writes, health marks and statistics.
pub mod Laws
pub mod Effects
use Prim.Native.String.{String}
use ipb.Base.{
  ℕ, ◌+◌, ◌%◌, ◌^◌, Bool, true, false, List, [], ◌∷◌, Option, none, some, if◌then◌else◌, ltb,
}
use ipb.Base.Int.{ℤ, pos, ◌+ℤ◌, ◌-ℤ◌}
use ipb.Base.Double.{Doubles}
use ipb.Sinks.Info.{SinkInfo, SinkHealth, healthy, degraded, unhealthy, unknown}
use ipb.Sinks.Balancer.{
  LoadBalanceStrategy, round_robin, weighted_round_robin, least_connections, least_latency,
  hash_based, random, failover, broadcast, Context,
}
use ipb.Sinks.Registry.{
  Registry, Stats, add64, find, update, Selection, selected, no_candidates, no_healthy_sinks,
  select_sink,
}

-- What the sink's own `write` answers, and how long it took in nanoseconds.
pub record Outcome : Type 0 where
  pub success : Bool
  pub elapsed : ℤ

pub data WriteResult : Type 0 where
  written write_failed sink_not_found sink_disabled no_selection : WriteResult

-- `pending_count.fetch_add(n)`
pub begin_write : ℕ → SinkInfo → SinkInfo
begin_write n s = record s { pending_count = s.pending_count +ℤ pos n }

-- `update_sink_health_on_failure`
pub degrade : ℕ → SinkInfo → SinkInfo
degrade threshold s = if ltb threshold s.messages_failed then record s { health = degraded } else s

-- What follows the call of the sink: the pending count, and the counters by the result.
pub finish_write : ℕ → ℕ → Outcome → SinkInfo → SinkInfo
unfolding degrade
finish_write threshold n o s =
    let idle = record s { pending_count = s.pending_count -ℤ pos n } in
    if o.success
    then record idle {
      messages_sent = add64 n s.messages_sent;
      total_latency_ns = s.total_latency_ns +ℤ o.elapsed;
    }
    else degrade threshold (record idle { messages_failed = add64 n s.messages_failed })

abbrev result_of : Outcome → WriteResult
result_of o = if o.success then written else write_failed

-- `write_batch_to_sink`, for a batch of `n` data points.
pub write_batch_to_sink : String → ℕ → Outcome → Registry → WriteResult × Registry
unfolding begin_write finish_write
write_batch_to_sink id n o r = elim (find id r.sinks) [
  | none ↦ (sink_not_found, r)
  | some s ↦
      if s.enabled
      then (
        result_of o,
        record r {
          sinks = update id (λ t. finish_write r.unhealthy_threshold n o (begin_write n t)) r.sinks;
        },
      )
      else (sink_disabled, r)
]

-- `write_to_sink` takes the same steps for one data point.
pub write_to_sink : String → Outcome → Registry → WriteResult × Registry
unfolding write_batch_to_sink
write_to_sink id o r = write_batch_to_sink id 1 o r

-- `write_to_all`, and the loop of a broadcast: what each sink answers is given by its id.
pub write_to_all :
    List String → (String → Outcome) → Registry → List (String × WriteResult) × Registry
unfolding write_to_sink
write_to_all [] o r = ([], r)
write_to_all (id ∷ ids) o r =
    let (w, r') = write_to_sink id (o id) r in
    let (ws, r'') = write_to_all ids o r' in ((id, w) ∷ ws, r'')

abbrev is_broadcast : LoadBalanceStrategy → Bool
is_broadcast broadcast = true
is_broadcast _ = false

-- `write_with_load_balancing`
abbrev dispatch : Bool → (String → Outcome) → Selection × Registry → WriteResult × Registry
dispatch all o (no_candidates, r) = (no_selection, r)
dispatch all o (no_healthy_sinks, r) = (no_selection, r)
dispatch all o (selected [], r) = (no_selection, r)
dispatch true o (selected (id ∷ ids), r) = (written, (write_to_all (id ∷ ids) o r).1)
dispatch false o (selected (id ∷ ids), r) = write_to_sink id (o id) r

pub write_with_load_balancing :
    Doubles
    → List String
    → LoadBalanceStrategy
    → Context
    → (String → Outcome)
    → Registry
    → WriteResult × Registry
unfolding write_to_all write_to_sink
write_with_load_balancing D ids strategy x o r =
    dispatch (is_broadcast strategy) o (select_sink D ids strategy x r)

-- The number of sinks in each state that the statistics count.
pub count : (SinkHealth → Bool) → List SinkInfo → ℕ
count test [] = 0
count test (s ∷ sinks) = (if test s.health then 1 else 0) + count test sinks

abbrev pub counts_healthy : SinkHealth → Bool
counts_healthy healthy = true
counts_healthy _ = false

abbrev pub counts_degraded : SinkHealth → Bool
counts_degraded degraded = true
counts_degraded _ = false

abbrev pub counts_unhealthy : SinkHealth → Bool
counts_unhealthy unhealthy = true
counts_unhealthy _ = false

-- `update_health_stats`
pub update_health_stats : Registry → Registry
unfolding count
update_health_stats r = record r {
  stats = record (r.stats) {
    healthy_sinks = count counts_healthy r.sinks;
    degraded_sinks = count counts_degraded r.sinks;
    unhealthy_sinks = count counts_unhealthy r.sinks;
  };
}

abbrev set_health : SinkHealth → SinkInfo → SinkInfo
set_health h s = record s { health = h }

-- `mark_sink_unhealthy` and `mark_sink_healthy`
pub mark_sink : SinkHealth → String → Registry → Registry
unfolding update_health_stats
mark_sink h id r = update_health_stats (record r { sinks = update id (set_health h) r.sinks })

-- What the sink says of itself decides its state.
abbrev probed : Bool → Bool → SinkHealth
probed running ok = if running then (if ok then healthy else degraded) else unhealthy

-- `check_sink_health`, with the answers of `is_running` and `is_healthy`.
pub check_sink_health : String → Bool → Bool → Registry → SinkHealth × Registry
unfolding mark_sink
check_sink_health id running ok r = elim (find id r.sinks) [
  | none ↦ (unknown, r)
  | some s ↦ (probed running ok, mark_sink (probed running ok) id r)
]

abbrev zeroed : List SinkInfo → List SinkInfo
zeroed [] = []
zeroed (s ∷ sinks) =
    record s { messages_sent = 0; messages_failed = 0; total_latency_ns = pos 0 } ∷ zeroed sinks

-- `reset_stats`
pub reset_stats : Registry → Registry
reset_stats r = record r {
  sinks = zeroed r.sinks;
  stats = record (r.stats) {
    total_selections = 0;
    successful_selections = 0;
    failed_selections = 0;
  };
}
