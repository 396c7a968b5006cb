-- ===== src/Sinks/Registry/Writing/Laws.antt =====
-- The registry as a whole (sink_registry.cpp): its calls in any order, and what a write does to the
-- record of its sink.
use Prim.Native.String.{String}
use ipb.Base.{
  ℕ, ◌≡◌, refl, inl, inr, Bool, true, false, List, [], ◌∷◌, none, length, arith, Bool-cases,
  Option-cases,
}
use ipb.Base.Double.{Doubles}
use ipb.Sinks.Info.{SinkInfo, SinkHealth}
use ipb.Sinks.Balancer.{LoadBalanceStrategy, Context}
use ipb.Sinks.Registry.{
  Registry, find, register_sink, unregister_sink, set_sink_enabled, set_sink_weight,
  set_sink_priority, Selection, selected, no_candidates, no_healthy_sinks, select_sink,
  select_sink_filtered,
}
use ipb.Sinks.Registry.Lookup.{Distinct, KeepsId}
use ipb.Sinks.Registry.Invariant.{
  IsValid, register_sink-IsValid, unregister_sink-IsValid, update-IsValid, set_field-IsValid,
  select_sink_filtered-IsValid,
}
use ipb.Sinks.Registry.Writing.{
  Outcome, begin_write, finish_write, write_batch_to_sink, write_to_sink, write_to_all, dispatch,
  is_broadcast, write_with_load_balancing, update_health_stats, set_health, mark_sink, probed,
  check_sink_health, zeroed, reset_stats,
}

abbrev pub served : ℕ → ℕ → Outcome → SinkInfo → SinkInfo
served threshold n o s = finish_write threshold n o (begin_write n s)

pub served-KeepsId : (threshold n : ℕ) (o : Outcome) → KeepsId (served threshold n o)
unfolding begin_write finish_write
served-KeepsId threshold n o s = ground arith

write_batch-IsValid :
    (id : String) (n : ℕ) (o : Outcome) (r : Registry)
    → IsValid r
    → IsValid (write_batch_to_sink id n o r).1
unfolding write_batch_to_sink
write_batch-IsValid id n o r v = elim (Option-cases (find id r.sinks)) [
  | inl e ↦ rw (e, write_batch_to_sink) v
  | inr (s, e) ↦ elim (Bool-cases s.enabled) [
    | inl on ↦
        rw (e, on, write_batch_to_sink)
          (update-IsValid id (served r.unhealthy_threshold n o) r
            (served-KeepsId r.unhealthy_threshold n o) v)
    | inr off ↦ rw (e, off, write_batch_to_sink) v
  ]
]

write-IsValid :
    (id : String) (o : Outcome) (r : Registry) → IsValid r → IsValid (write_to_sink id o r).1
unfolding write_to_sink
write-IsValid id o r v = write_batch-IsValid id 1 o r v

write_to_all-IsValid :
    (ids : List String) (o : String → Outcome) (r : Registry)
    → IsValid r
    → IsValid (write_to_all ids o r).1
unfolding write_to_all
write_to_all-IsValid [] o r v = v
write_to_all-IsValid (id ∷ ids) o r v = write_to_all-IsValid ids o _ (write-IsValid id (o id) r v)

dispatch-IsValid :
    (all : Bool) (o : String → Outcome) (s : Selection) (r : Registry)
    → IsValid r
    → IsValid (dispatch all o (s, r)).1
dispatch-IsValid all o no_candidates r v = v
dispatch-IsValid all o no_healthy_sinks r v = v
dispatch-IsValid all o (selected []) r v = v
dispatch-IsValid true o (selected (id ∷ ids)) r v = write_to_all-IsValid (id ∷ ids) o r v
dispatch-IsValid false o (selected (id ∷ ids)) r v = write-IsValid id (o id) r v

balance-IsValid :
    (D : Doubles) (ids : List String) (strategy : LoadBalanceStrategy) (x : Context)
    (o : String → Outcome) (r : Registry)
    → IsValid r
    → IsValid (write_with_load_balancing D ids strategy x o r).1
unfolding write_with_load_balancing select_sink
balance-IsValid D ids strategy x o r v =
    let chosen = select_sink_filtered D ids (λ s. true) strategy x r in
    dispatch-IsValid (is_broadcast strategy) o chosen.0 chosen.1
      (select_sink_filtered-IsValid D ids (λ s. true) strategy x r v)

update_health_stats-IsValid : (r : Registry) → IsValid r → IsValid (update_health_stats r)
unfolding update_health_stats
update_health_stats-IsValid r v = record {
  distinct = v.distinct;
  active = v.active;
  balanced = v.balanced;
}

mark_sink-IsValid :
    (h : SinkHealth) (id : String) (r : Registry) → IsValid r → IsValid (mark_sink h id r)
unfolding mark_sink
mark_sink-IsValid h id r v =
    update_health_stats-IsValid _ (update-IsValid id (set_health h) r (λ s. refl) v)

check-IsValid :
    (id : String) (running fine : Bool) (r : Registry)
    → IsValid r
    → IsValid (check_sink_health id running fine r).1
unfolding check_sink_health
check-IsValid id running fine r v = elim (Option-cases (find id r.sinks)) [
  | inl e ↦ rw (e, check_sink_health) v
  | inr (s, e) ↦ rw (e, check_sink_health) (mark_sink-IsValid (probed running fine) id r v)
]

find-zeroed-none :
    (id : String) (sinks : List SinkInfo) → find id sinks ≡ none → find id (zeroed sinks) ≡ none
unfolding find
find-zeroed-none id [] h = refl
find-zeroed-none id (s ∷ sinks) h = ground (arith, find-zeroed-none id sinks)

zeroed-Distinct : (sinks : List SinkInfo) → Distinct sinks → Distinct (zeroed sinks)
zeroed-Distinct [] d = tt
zeroed-Distinct (s ∷ sinks) d = (find-zeroed-none s.id sinks d.0, zeroed-Distinct sinks d.1)

length-zeroed : (sinks : List SinkInfo) → length (zeroed sinks) ≡ length sinks
length-zeroed [] = refl
length-zeroed (s ∷ sinks) = omega (arith, length-zeroed sinks)

reset-IsValid : (r : Registry) → IsValid r → IsValid (reset_stats r)
unfolding reset_stats
reset-IsValid r v = record {
  distinct = zeroed-Distinct r.sinks v.distinct;
  active = rw (length-zeroed r.sinks) v.active;
  balanced = refl;
}

-- The calls that change the registry, with what the sinks answer.
pub data Call : Type 0 where
  registers : String → ℕ → Call
  unregisters : String → Call
  enables : String → Bool → Call
  weighs prioritizes : String → ℕ → Call
  selects : List String → (SinkInfo → Bool) → LoadBalanceStrategy → Context → Call
  writes : String → Outcome → Call
  writes_batch : String → ℕ → Outcome → Call
  writes_all : List String → (String → Outcome) → Call
  balances : List String → LoadBalanceStrategy → Context → (String → Outcome) → Call
  marks : SinkHealth → String → Call
  checks : String → Bool → Bool → Call
  resets : Call

unfoldable pub step : Doubles → Registry → Call → Registry
step D r (registers id weight) = (register_sink id weight r).1
step D r (unregisters id) = (unregister_sink id r).1
step D r (enables id on) = (set_sink_enabled id on r).1
step D r (weighs id n) = (set_sink_weight id n r).1
step D r (prioritizes id n) = (set_sink_priority id n r).1
step D r (selects ids filter strategy x) = (select_sink_filtered D ids filter strategy x r).1
step D r (writes id o) = (write_to_sink id o r).1
step D r (writes_batch id n o) = (write_batch_to_sink id n o r).1
step D r (writes_all ids o) = (write_to_all ids o r).1
step D r (balances ids strategy x o) = (write_with_load_balancing D ids strategy x o r).1
step D r (marks h id) = mark_sink h id r
step D r (checks id running fine) = (check_sink_health id running fine r).1
step D r resets = reset_stats r

pub run : Doubles → Registry → List Call → Registry
unfolding step
run D r [] = r
run D r (c ∷ cs) = run D (step D r c) cs

step-IsValid : (D : Doubles) (c : Call) (r : Registry) → IsValid r → IsValid (step D r c)
unfolding step set_sink_enabled set_sink_weight set_sink_priority
step-IsValid D (registers id weight) r v = register_sink-IsValid id weight r v
step-IsValid D (unregisters id) r v = unregister_sink-IsValid id r v
step-IsValid D (enables id on) r v =
    set_field-IsValid id (λ s. record s { enabled = on }) r (λ s. refl) v
step-IsValid D (weighs id n) r v =
    set_field-IsValid id (λ s. record s { weight = n }) r (λ s. refl) v
step-IsValid D (prioritizes id n) r v =
    set_field-IsValid id (λ s. record s { priority = n }) r (λ s. refl) v
step-IsValid D (selects ids filter strategy x) r v =
    select_sink_filtered-IsValid D ids filter strategy x r v
step-IsValid D (writes id o) r v = write-IsValid id o r v
step-IsValid D (writes_batch id n o) r v = write_batch-IsValid id n o r v
step-IsValid D (writes_all ids o) r v = write_to_all-IsValid ids o r v
step-IsValid D (balances ids strategy x o) r v = balance-IsValid D ids strategy x o r v
step-IsValid D (marks h id) r v = mark_sink-IsValid h id r v
step-IsValid D (checks id running fine) r v = check-IsValid id running fine r v
step-IsValid D resets r v = reset-IsValid r v

-- From a valid registry every history of calls leads to a valid one: distinct ids, `active_sinks` the
-- number of sinks, and each selection counted once as a success or a failure, modulo 2^64.
pub run-IsValid : (D : Doubles) (r : Registry) (cs : List Call) → IsValid r → IsValid (run D r cs)
unfolding run
run-IsValid D r [] v = v
run-IsValid D r (c ∷ cs) v = run-IsValid D (step D r c) cs (step-IsValid D c r v)
