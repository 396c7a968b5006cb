-- ===== src/Sinks/Examples.antt =====
-- The laws of core/components/src/sink_registry at concrete inputs.
use Prim.Native.String.{String}
use ipb.Base.{
  ◌<◌, ℕ, ◌≡◌, ◌≢◌, refl, true, false, List, [], ◌∷◌, none, some, if◌then◌else◌, All, arith,
}
use ipb.Base.Int.{pos}
use ipb.Base.Double.{thousandths}
use ipb.Sinks.Balancer.{select_round_robin}
use ipb.Sinks.Balancer.Fair.{after_turns, select_round_robin-comes_round}
use ipb.Sinks.Info.{SinkInfo, SinkHealth, available, healthy, degraded, unhealthy}
use ipb.Sinks.Balancer.{round_robin, failover, Context, select, select_round_robin, failover_choice}
use ipb.Sinks.Balancer.Weighted.{weights, turn, calls, singly, calls-turn}
use ipb.Sinks.Balancer.Failover.{IsChoice, failover_choice-IsChoice}
use ipb.Sinks.Registry.{Registry, find, gather, conclude, choose, selected, select_sink_filtered}
use ipb.Sinks.Registry.Invariant.{IsValid}
use ipb.Sinks.Registry.Selecting.{serves, select_sink-serves}
use ipb.Sinks.Registry.Writing.{Outcome, write_batch_to_sink, written, write_failed}
use ipb.Sinks.Registry.Writing.Laws.{
  Call, registers, unregisters, selects, writes, marks, run, run-IsValid,
}
use ipb.Sinks.Registry.Writing.Effects.{after, write_batch-find}

abbrev sink : String → ℕ → SinkHealth → SinkInfo
sink id weight health = record {
  id = id;
  weight = weight;
  enabled = true;
  priority = weight;
  health = health;
  messages_sent = 10;
  messages_failed = 5;
  total_latency_ns = pos 1000;
  pending_count = pos weight;
}

abbrev sinks : List SinkInfo
sinks = sink "a" 2 healthy ∷ (sink "b" 1 degraded ∷ (sink "c" 3 unhealthy ∷ []))

abbrev registry : Registry
registry = record {
  unhealthy_threshold = 3;
  sinks = sinks;
  counters = record { plain = 0; weighted = 0 };
  stats = record {
    total_selections = 4;
    successful_selections = 3;
    failed_selections = 1;
    active_sinks = 3;
    healthy_sinks = 1;
    degraded_sinks = 1;
    unhealthy_sinks = 1;
  };
}

abbrev context : Context
context = record { address = none; now = 7; draw = λ n. 0 }

registry-IsValid : IsValid registry
unfolding find
registry-IsValid = record { distinct = (refl, (refl, (refl, tt))); active = refl; balanced = refl }

abbrev outcome : Outcome
outcome = record { success = false; elapsed = pos 20 }

abbrev calls_made : List Call
calls_made =
    registers "d" 5
    ∷ (selects ("a" ∷ ("c" ∷ [])) (λ s. true) round_robin context
        ∷ (writes "a" outcome ∷ (marks unhealthy "b" ∷ (unregisters "c" ∷ []))))

run-IsValid_example : IsValid (run thousandths registry calls_made)
run-IsValid_example = run-IsValid thousandths registry calls_made registry-IsValid

abbrev only_b : List String
only_b = "b" ∷ []

not_failover : round_robin ≢ failover
not_failover e = cc

one_selected :
    (select_sink_filtered thousandths ("c" ∷ ("b" ∷ [])) (λ s. true) round_robin context registry).0
    ≡ selected ("b" ∷ [])
unfolding select_sink_filtered gather find choose conclude select select_round_robin available
one_selected = refl

select_sink-serves_example : (only_b ≢ []) × All (λ id. serves (λ s. true) sinks id ≡ true) only_b
select_sink-serves_example =
    select_sink-serves thousandths ("c" ∷ ("b" ∷ [])) (λ s. true) round_robin context registry
      only_b not_failover one_selected

weights-sinks : weights (available sinks) ≡ 3
unfolding weights available
weights-sinks = refl

calls-turn_example : calls (weights (available sinks)) 6 sinks ≡ singly (turn (available sinks))
calls-turn_example =
    calls-turn sinks 6 (omega (arith, weights-sinks)) (rw weights-sinks)
      (omega (arith, weights-sinks))

failover_choice-IsChoice_example : IsChoice sinks (failover_choice sinks)
failover_choice-IsChoice_example = failover_choice-IsChoice sinks

a_found : find "a" sinks ≡ some (sink "a" 2 healthy)
unfolding find
a_found = refl

write_batch-find_example :
    let (w, r') = write_batch_to_sink "a" 8 outcome registry in
    (w ≡ (if outcome.success then written else write_failed))
    × (find "a" r'.sinks ≡ some (after 3 8 outcome (sink "a" 2 healthy)))
    × ((j : String) → "a" ≢ j → find j r'.sinks ≡ find j sinks)
write_batch-find_example = write_batch-find "a" 8 outcome registry (sink "a" 2 healthy) a_found refl

c_found : find "c" sinks ≡ some (sink "c" 3 unhealthy)
unfolding find
c_found = refl

select_round_robin-comes_round_example :
    (k : ℕ) × (k < 2) × ((select_round_robin sinks (after_turns sinks k 5)).0 ≡ "b" ∷ [])
unfolding available
select_round_robin-comes_round_example =
    select_round_robin-comes_round sinks 5 1 (sink "b" 1 degraded) refl (omega arith)
