-- ===== src/Router.antt =====
-- core/router/src/router.cpp: `Router`, one call at a time, over the rule engine and the sink registry.
-- Of the message bus and the scheduler it has whether they run. Logging is left out.
pub mod Legacy
pub mod Conversion
pub mod Routing
pub mod Delivery
pub mod Lifecycle
pub mod Management
mod Examples
use Prim.Native.String.{String}
use ipb.Base.{ℕ, Bool, true, false, ◌&&◌, List, [], ◌∷◌, Option, none, some, if◌then◌else◌}
use ipb.RuleEngine.Engine.{Engine}
use ipb.Sinks.Registry.{Registry}

-- The error codes that the modelled calls return, and success.
pub data Code : Type 0 where
  ok invalid_state no_matching_rule all_sinks_failed : Code
  rule_invalid rule_not_found sink_not_found already_exists config_invalid : Code

-- The router's own settings.
pub record RouterConfig : Type 0 where
  pub enable_dead_letter_queue : Bool
  pub dead_letter_sink_id : String

pub record Router : Type 0 where
  pub config : RouterConfig
  pub running : Bool
  pub bus_running : Bool
  pub scheduler_running : Bool
  pub registry_running : Bool
  pub subscribed : Bool
  pub engine : Engine
  pub registry : Registry

-- What the components' own `start` answer.
pub record Starts : Type 0 where
  pub bus : Bool
  pub scheduler : Bool
  pub registry : Bool

-- The components that `start` has started so far are stopped in the reverse order.
abbrev pub all_started : Router → Router
all_started r = record r {
  running = true;
  bus_running = true;
  scheduler_running = true;
  registry_running = true;
  subscribed = true;
}

abbrev start_registry : Starts → Router → Code × Router
start_registry s r = if s.registry then (ok, all_started r) else (
  invalid_state,
  record r { running = false; bus_running = false; scheduler_running = false },
)

abbrev start_scheduler : Starts → Router → Code × Router
start_scheduler s r =
    if s.scheduler
    then start_registry s r
    else (invalid_state, record r { running = false; bus_running = false })

abbrev start_bus : Starts → Router → Code × Router
start_bus s r = if s.bus then start_scheduler s r else (invalid_state, record r { running = false })

-- `start`
unfoldable pub start : Starts → Router → Code × Router
start s r = if r.running then (ok, r) else start_bus s r

-- `stop`
unfoldable pub stop : Router → Code × Router
stop r =
    if r.running
    then (
      ok,
      record r {
        running = false;
        subscribed = false;
        registry_running = false;
        scheduler_running = false;
        bus_running = false;
      },
    )
    else (ok, r)

-- `is_healthy`
unfoldable pub is_healthy : Router → Bool
is_healthy r = r.running && (r.bus_running && (r.scheduler_running && r.registry_running))
