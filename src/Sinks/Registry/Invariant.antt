-- ===== src/Sinks/Registry/Invariant.antt =====
-- Every call of the registry (sink_registry.cpp) keeps its map and its statistics in step.
use Prim.Native.String.{String}
use ipb.Base.{ℕ, ◌+◌, ◌%◌, ◌^◌, ◌≡◌, inl, inr, Bool, List, [], ◌∷◌, length, arith, Option-cases}
use ipb.Base.Double.{Doubles}
use ipb.Sinks.Info.{SinkInfo}
use ipb.Sinks.Balancer.{LoadBalanceStrategy, Context, Counters}
use ipb.Sinks.Registry.{
  Registry, add64, find, update, register_sink, unregister_sink, set_field, conclude, choose,
  gather, select_sink_filtered,
}
use ipb.Sinks.Registry.Lookup.{
  Distinct, KeepsId, update-Distinct, erase-Distinct, length-update, length-erase,
}

-- The ids are distinct, `active_sinks` counts them, and every selection is counted as a success or
-- as a failure; the counters are taken modulo 2^64.
pub record IsValid (r : Registry) : Type 0 where
  pub distinct : Distinct r.sinks
  pub active : r.stats.active_sinks ≡ length r.sinks % 2 ^ 64
  pub balanced :
      r.stats.total_selections
      ≡ (r.stats.successful_selections + r.stats.failed_selections) % 2 ^ 64

pub register_sink-IsValid :
    (id : String) (weight : ℕ) (r : Registry) → IsValid r → IsValid (register_sink id weight r).1
unfolding register_sink
register_sink-IsValid id weight r v = ground arith

pub unregister_sink-IsValid :
    (id : String) (r : Registry) → IsValid r → IsValid (unregister_sink id r).1
unfolding unregister_sink
unregister_sink-IsValid id r v = elim (Option-cases (find id r.sinks)) [
  | inl e ↦ rw (e, unregister_sink) v
  | inr (s, e) ↦
      rw (e, unregister_sink)
        (record {
          distinct = erase-Distinct id r.sinks v.distinct;
          active = omega (arith, v.active, length-erase id r.sinks s e);
          balanced = v.balanced;
        })
]

-- A change of one record that keeps its id.
pub update-IsValid :
    (id : String) (f : SinkInfo → SinkInfo) (r : Registry)
    → KeepsId f
    → IsValid r
    → IsValid (record r { sinks = update id f r.sinks })
update-IsValid id f r keeps v = record {
  distinct = update-Distinct id f keeps r.sinks v.distinct;
  active = rw (length-update id f keeps r.sinks) v.active;
  balanced = v.balanced;
}

pub set_field-IsValid :
    (id : String) (f : SinkInfo → SinkInfo) (r : Registry)
    → KeepsId f
    → IsValid r
    → IsValid (set_field id f r).1
unfolding set_field
set_field-IsValid id f r keeps v = elim (Option-cases (find id r.sinks)) [
  | inl e ↦ rw (e, set_field) v
  | inr (s, e) ↦ rw (e, set_field) (update-IsValid id f r keeps v)
]

conclude-IsValid :
    (ids : List String) (r : Registry) (c : Counters)
    → IsValid r
    → IsValid
        (conclude ids (record r {
          counters = c;
          stats = record (r.stats) { total_selections = add64 1 r.stats.total_selections };
        })).1
unfolding conclude
conclude-IsValid [] r c v = ground arith
conclude-IsValid (id ∷ ids) r c v = ground arith

choose-IsValid :
    (D : Doubles) (strategy : LoadBalanceStrategy) (x : Context) (c : List SinkInfo) (r : Registry)
    → IsValid r
    → IsValid
        (choose D strategy x c (record r {
          stats = record (r.stats) { total_selections = add64 1 r.stats.total_selections };
        })).1
unfolding choose
choose-IsValid D strategy x [] r v = ground arith
choose-IsValid D strategy x (s ∷ c) r v = conclude-IsValid _ r _ v

pub select_sink_filtered-IsValid :
    (D : Doubles) (ids : List String) (filter : SinkInfo → Bool) (strategy : LoadBalanceStrategy)
    (x : Context) (r : Registry)
    → IsValid r
    → IsValid (select_sink_filtered D ids filter strategy x r).1
unfolding select_sink_filtered
select_sink_filtered-IsValid D ids filter strategy x r v =
    choose-IsValid D strategy x (gather filter ids r.sinks) r v
