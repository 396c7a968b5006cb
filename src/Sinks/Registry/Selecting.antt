-- ===== src/Sinks/Registry/Selecting.antt =====
-- What a selection through the registry (sink_registry.cpp) may return.
use Prim.Native.String.{String}
use text.Mathlib.TextEquality.{eq_iff}
use mathlib.Core.List.{mem-cons, not-mem-nil}
use mathlib.Core.Logic.Or
use mathlib.Core.Path.{subst}
use ipb.Base.{
  ◌≡◌, ◌≢◌, inl, inr, Bool, true, false, ◌&&◌, List, [], ◌∷◌, none, some, All, arith, Bool-cases,
  Option-cases,
}
use ipb.Base.Double.{Doubles}
use ipb.Sinks.Info.{SinkInfo, is_available, available}
use ipb.Sinks.Balancer.{LoadBalanceStrategy, Context, select}
use ipb.Sinks.Balancer.Sound.{Names, AllName, select-AllName}
use ipb.Sinks.Registry.{
  Registry, find, gather, Selection, selected, no_candidates, no_healthy_sinks, conclude, choose,
  select_sink_filtered,
}

-- The id is registered, and its record is available and passes the filter.
pub serves : (SinkInfo → Bool) → List SinkInfo → String → Bool
serves filter sinks id = elim (find id sinks) [ none ↦ false | some s ↦ is_available s && filter s ]

find-id : (id : String) (sinks : List SinkInfo) (s : SinkInfo) → find id sinks ≡ some s → s.id ≡ id
unfolding find
find-id id [] s e = cc
find-id id (t ∷ sinks) s e = ground (arith, find-id id sinks s, eq_iff t.id id)

serves_found :
    (filter : SinkInfo → Bool) (sinks : List SinkInfo) (id : String) (s : SinkInfo)
    → find id sinks ≡ some s
    → is_available s ≡ true
    → filter s ≡ true
    → serves filter sinks s.id ≡ true
unfolding serves
serves_found filter sinks id s e a f = rw (find-id id sinks s e) (rw (e, serves) (rw (a, f)))

Bool_prop : {a b : Bool} → IsProp (a ≡ b)
Bool_prop = hlevel

available_cases :
    (P : List SinkInfo → Type 0) (s : SinkInfo) (c : List SinkInfo)
    → (is_available s ≡ true → P (s ∷ available c))
    → (is_available s ≡ false → P (available c))
    → P (available (s ∷ c))
unfolding available
available_cases P s c f g = elim (Bool-cases (is_available s)) [
  | inl e ↦ rw e (f e)
  | inr e ↦ rw e (g e)
]

module _ (filter : SinkInfo → Bool) (sinks : List SinkInfo) where
  gather-none :
      (j : String) (ids : List String)
      → find j sinks ≡ none
      → gather filter (j ∷ ids) sinks ≡ gather filter ids sinks
  unfolding gather
  gather-none j ids e = rw (e, gather)

  gather_keep :
      (j : String) (ids : List String) (s : SinkInfo)
      → find j sinks ≡ some s
      → filter s ≡ true
      → gather filter (j ∷ ids) sinks ≡ s ∷ gather filter ids sinks
  unfolding gather
  gather_keep j ids s e f = rw (e, gather) (rw f)

  gather_drop :
      (j : String) (ids : List String) (s : SinkInfo)
      → find j sinks ≡ some s
      → filter s ≡ false
      → gather filter (j ∷ ids) sinks ≡ gather filter ids sinks
  unfolding gather
  gather_drop j ids s e f = rw (e, gather) (rw f)

  abbrev Served : List SinkInfo → Type 0
  Served c = (id : String) → Names c id → serves filter sinks id ≡ true

  Served-gather : (ids : List String) → Served (available (gather filter ids sinks))
  Served-gather [] = unfold gather available in λ id m. absurd (not-mem-nil m)
  Served-gather (j ∷ ids) = elim (Option-cases (find j sinks)) [
    | inl e ↦ rw (gather-none j ids e) (Served-gather ids)
    | inr (s, e) ↦ elim (Bool-cases (filter s)) [
      | inl f ↦ rw (gather_keep j ids s e f) (
          available_cases Served s (gather filter ids sinks)
            (λ a id m.
              Or.elim Bool_prop (mem-cons.0 m) (λ h. rw h (serves_found filter sinks j s e a f))
                (Served-gather ids id))
            (λ a. Served-gather ids))
      | inr f ↦ rw (gather_drop j ids s e f) (Served-gather ids)
    ]
  ]

All-serves :
    (filter : SinkInfo → Bool) (sinks c : List SinkInfo) (ids : List String)
    → ((id : String) → Names c id → serves filter sinks id ≡ true)
    → AllName c ids
    → All (λ id. serves filter sinks id ≡ true) ids
All-serves filter sinks c [] h a = tt
All-serves filter sinks c (id ∷ ids) h a = (h id a.0, All-serves filter sinks c ids h a.1)

-- A selection that succeeded with `ids`.
abbrev Returns : (List String → Type 0) → Selection → Type 0
Returns P (selected ids) = P ids
Returns P no_candidates = Unit
Returns P no_healthy_sinks = Unit

conclude-Returns :
    (P : List String → Type 0) (ids : List String) (r : Registry)
    → (ids ≢ [] → P ids)
    → Returns P (conclude ids r).0
unfolding conclude
conclude-Returns P [] r h = tt
conclude-Returns P (id ∷ ids) r h = h (λ e. cc)

module _ (D : Doubles) (strategy : LoadBalanceStrategy) (x : Context)
    (plain : strategy ≢ LoadBalanceStrategy.failover) where
  choose-Returns :
      (filter : SinkInfo → Bool) (sinks c : List SinkInfo) (r : Registry)
      → Served filter sinks (available c)
      → Returns
          (λ ids. (ids ≢ []) × All (λ id. serves filter sinks id ≡ true) ids)
          (choose D strategy x c r).0
  unfolding choose
  choose-Returns filter sinks [] r h = tt
  choose-Returns filter sinks (s ∷ c) r h =
      conclude-Returns (λ out. (out ≢ []) × All (λ id. serves filter sinks id ≡ true) out)
        ((select D strategy x r.counters (s ∷ c)).0)
        (record r { counters = (select D strategy x r.counters (s ∷ c)).1 })
        (λ ne. (
          ne,
          All-serves filter sinks (available (s ∷ c)) _ h
              (select-AllName D strategy x r.counters (s ∷ c) plain),
        ))

-- A selection that succeeds, by any strategy but failover, returns at least one id, and each id is
-- that of a registered sink that is enabled, not unhealthy and passes the filter.
pub select_sink-serves :
    (D : Doubles) (ids : List String) (filter : SinkInfo → Bool) (strategy : LoadBalanceStrategy)
    (x : Context) (r : Registry) (out : List String)
    → strategy ≢ LoadBalanceStrategy.failover
    → (select_sink_filtered D ids filter strategy x r).0 ≡ selected out
    → (out ≢ []) × All (λ id. serves filter r.sinks id ≡ true) out
unfolding select_sink_filtered
select_sink-serves D ids filter strategy x r out plain e =
    subst (Returns (λ ids. (ids ≢ []) × All (λ id. serves filter r.sinks id ≡ true) ids)) e (
      choose-Returns D strategy x plain filter r.sinks (gather filter ids r.sinks) _
        (Served-gather filter r.sinks ids))
