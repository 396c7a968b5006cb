-- ===== src/Sinks/Registry.antt =====
-- core/components/src/sink_registry/sink_registry.cpp: `SinkRegistryImpl`, one call at a time. The map
-- of sinks is the list of their records, keyed by `id`; a call runs under the registry's lock, or reads
-- and writes atomics that no other call touches meanwhile. The preconditions of the source (a non-empty
-- id, a sink that is not null) are the caller's.
pub mod Lookup
pub mod Invariant
pub mod Selecting
pub mod Writing
use Prim.Native.String.{String}
use text.Mathlib.Text.{◌==◌ as str_eq}
use ipb.Base.{
  ℕ, zero, suc, ◌+◌, ◌-◌, ◌*◌, ◌%◌, ◌^◌, ◌≡◌, Bool, true, false, ◌&&◌, not, List, [], ◌∷◌, Option,
  none, some, if◌then◌else◌, ltb, length,
}
use ipb.Base.Int.{ℤ, pos, ◌+ℤ◌}
use ipb.Base.Double.{Doubles}
use ipb.Sinks.Info.{SinkInfo, SinkHealth, healthy, degraded, unhealthy, unknown}
use ipb.Sinks.Balancer.{LoadBalanceStrategy, Counters, Context, select}

-- The statistics that the modelled operations change, on uint64_t.
pub record Stats : Type 0 where
  pub total_selections : ℕ
  pub successful_selections : ℕ
  pub failed_selections : ℕ
  pub active_sinks : ℕ
  pub healthy_sinks : ℕ
  pub degraded_sinks : ℕ
  pub unhealthy_sinks : ℕ

pub record Registry : Type 0 where
  pub unhealthy_threshold : ℕ
  pub sinks : List SinkInfo
  pub counters : Counters
  pub stats : Stats

-- `fetch_add(n)` and `fetch_sub(1)` on a uint64_t.
abbrev pub add64 : ℕ → ℕ → ℕ
add64 n a = (a + n) % 2 ^ 64

abbrev pub dec64 : ℕ → ℕ
dec64 a = (a + 2 ^ 64 - 1) % 2 ^ 64

-- `sinks_.find(id)`
unfoldable pub find : String → List SinkInfo → Option SinkInfo
find id [] = none
find id (s ∷ sinks) = let rest = find id sinks in if str_eq s.id id then some s else rest

-- `sinks_.erase(it)`
pub erase : String → List SinkInfo → List SinkInfo
erase id [] = []
erase id (s ∷ sinks) = let rest = erase id sinks in if str_eq s.id id then sinks else s ∷ rest

-- A change of the record that `find` yields.
pub update : String → (SinkInfo → SinkInfo) → List SinkInfo → List SinkInfo
update id f [] = []
update id f (s ∷ sinks) =
    let rest = update id f sinks in if str_eq s.id id then f s ∷ sinks else s ∷ rest

abbrev pub new_sink : String → ℕ → SinkInfo
new_sink id weight = record {
  id = id;
  weight = weight;
  enabled = true;
  priority = 0;
  health = unknown;
  messages_sent = 0;
  messages_failed = 0;
  total_latency_ns = pos 0;
  pending_count = pos 0;
}

pub register_sink : String → ℕ → Registry → Bool × Registry
unfolding find
register_sink id weight r = elim (find id r.sinks) [
  | some s ↦ (false, r)
  | none ↦ (
    true,
    record r {
      sinks = new_sink id weight ∷ r.sinks;
      stats = record (r.stats) { active_sinks = add64 1 r.stats.active_sinks };
    },
  )
]

pub unregister_sink : String → Registry → Bool × Registry
unfolding find erase
unregister_sink id r = elim (find id r.sinks) [
  | none ↦ (false, r)
  | some s ↦ (
    true,
    record r {
      sinks = erase id r.sinks;
      stats = record (r.stats) { active_sinks = dec64 r.stats.active_sinks };
    },
  )
]

-- The three setters write one field of the record found.
pub set_field : String → (SinkInfo → SinkInfo) → Registry → Bool × Registry
unfolding find update
set_field id f r = elim (find id r.sinks) [
  | none ↦ (false, r)
  | some s ↦ (true, record r { sinks = update id f r.sinks })
]

pub set_sink_enabled : String → Bool → Registry → Bool × Registry
unfolding set_field
set_sink_enabled id enabled r = set_field id (λ s. record s { enabled = enabled }) r

pub set_sink_weight : String → ℕ → Registry → Bool × Registry
unfolding set_field
set_sink_weight id weight r = set_field id (λ s. record s { weight = weight }) r

pub set_sink_priority : String → ℕ → Registry → Bool × Registry
unfolding set_field
set_sink_priority id priority r = set_field id (λ s. record s { priority = priority }) r

-- The candidates whose ids are registered and whose records pass the filter.
unfoldable pub gather : (SinkInfo → Bool) → List String → List SinkInfo → List SinkInfo
unfolding find
gather filter [] sinks = []
gather filter (id ∷ ids) sinks = elim (find id sinks) [
  | none ↦ gather filter ids sinks
  | some s ↦ let rest = gather filter ids sinks in if filter s then s ∷ rest else rest
]

-- `SinkSelectionResult`: the ids of a success, or the error.
pub data Selection : Type 0 where
  selected : List String → Selection
  no_candidates no_healthy_sinks : Selection

abbrev counted : Registry → Registry
counted r = record r {
  stats = record (r.stats) { total_selections = add64 1 r.stats.total_selections };
}

abbrev failed : Registry → Registry
failed r = record r {
  stats = record (r.stats) { failed_selections = add64 1 r.stats.failed_selections };
}

abbrev succeeded : Registry → Registry
succeeded r = record r {
  stats = record (r.stats) { successful_selections = add64 1 r.stats.successful_selections };
}

-- What follows the balancer's answer.
unfoldable pub conclude : List String → Registry → Selection × Registry
conclude [] r = (no_healthy_sinks, failed r)
conclude (id ∷ ids) r = (selected (id ∷ ids), succeeded r)

unfoldable pub choose :
    Doubles → LoadBalanceStrategy → Context → List SinkInfo → Registry → Selection × Registry
unfolding conclude
choose D strategy x [] r = (no_candidates, failed r)
choose D strategy x (s ∷ candidates) r =
    let (ids, counters) = select D strategy x r.counters (s ∷ candidates) in
    conclude ids (record r { counters = counters })

-- `select_sink_filtered`, and the two `select_sink`, whose filter passes every record. The context has
-- an address in the version that is given a data point.
unfoldable pub select_sink_filtered :
    Doubles
    → List String
    → (SinkInfo → Bool)
    → LoadBalanceStrategy
    → Context
    → Registry
    → Selection × Registry
unfolding gather choose
select_sink_filtered D ids filter strategy x r =
    choose D strategy x (gather filter ids r.sinks) (counted r)

pub select_sink :
    Doubles → List String → LoadBalanceStrategy → Context → Registry → Selection × Registry
unfolding select_sink_filtered
select_sink D ids strategy x r = select_sink_filtered D ids (λ s. true) strategy x r
