-- ===== src/Sinks/Balancer/Sound.antt =====
-- Which sinks the balancers of load_balancer.cpp may name.
use Prim.Native.String.{String}
use mathlib.Core.List.{Mem, mem-cons_self, mem-cons_of_mem}
use ipb.Base.{
  ℕ, zero, suc, ◌+◌, ◌%◌, ◌^◌, ◌≡◌, refl, ◌≢◌, inl, inr, Bool, true, false, ◌&&◌, ◌||◌, List, [],
  ◌∷◌, Option, none, some, ltb, length, get_elem?, map, All, Bool-cases,
}
use ipb.Base.Int.{ℤ, ltb_ℤ}
use ipb.Base.Double.{Doubles}
use ipb.Sinks.Info.{SinkInfo, is_available, available}
use ipb.Sinks.Balancer.{
  is_none, by_hash, compute_hash, fnv_offset, LoadBalanceStrategy, id_at, id_mod, id_of, Counters,
  Context, select, weighted_among, pick_weighted, least_pending, least_latency_loop, select_hash,
  select_by_clock, draw_among, int64_max, avg_latency_us, total_weight,
}

abbrev pub ids : List SinkInfo → List String
ids sinks = map (λ s. s.id) sinks

-- `id` is the name of one of the sinks.
abbrev pub Names : List SinkInfo → String → Type 0
Names sinks id = Mem id (ids sinks)

-- Every id of the list is the name of one of the sinks.
abbrev pub AllName : List SinkInfo → List String → Type 0
AllName sinks = All (Names sinks)

get_elem?-Names :
    (sinks : List SinkInfo) (i : ℕ) (s : SinkInfo) → get_elem? sinks i ≡ some s → Names sinks s.id
get_elem?-Names [] i s e = cc
get_elem?-Names (t ∷ sinks) zero s e = let p : t ≡ s = cc in rw p mem-cons_self
get_elem?-Names (t ∷ sinks) (suc i) s e = mem-cons_of_mem t.id (get_elem?-Names sinks i s e)

id_at-AllName : (sinks : List SinkInfo) (i : ℕ) → AllName sinks (id_at sinks i)
id_at-AllName sinks i = go (get_elem? sinks i) refl
  where
    go :
        (o : Option SinkInfo)
        → get_elem? sinks i ≡ o
        → AllName sinks (elim o [ none ↦ [] | some s ↦ s.id ∷ [] ])
    go none e = tt
    go (some s) e = (get_elem?-Names sinks i s e, tt)

id_mod-AllName : (sinks : List SinkInfo) (n : ℕ) → AllName sinks (id_mod sinks n)
id_mod-AllName [] n = tt
id_mod-AllName (s ∷ sinks) n = id_at-AllName (s ∷ sinks) (n % length (s ∷ sinks))

pick_weighted-Names :
    (target cumulative : ℕ) (last : String) (s : SinkInfo) (sinks : List SinkInfo)
    → Names (s ∷ sinks) (pick_weighted target cumulative last (s ∷ sinks))
unfolding pick_weighted
pick_weighted-Names target cumulative last s [] =
    elim (Bool-cases (ltb target ((cumulative + s.weight) % 2 ^ 64))) [
      | inl e ↦ rw e mem-cons_self
      | inr e ↦ rw e mem-cons_self
    ]
pick_weighted-Names target cumulative last s (t ∷ sinks) =
    let rest = pick_weighted-Names target ((cumulative + s.weight) % 2 ^ 64) s.id t sinks in
    elim (Bool-cases (ltb target ((cumulative + s.weight) % 2 ^ 64))) [
      | inl e ↦ rw e mem-cons_self
      | inr e ↦ rw e (mem-cons_of_mem s.id rest)
    ]

weighted_among-AllName :
    (sinks : List SinkInfo) (total counter : ℕ)
    → AllName sinks (weighted_among sinks total counter).0
weighted_among-AllName [] total counter = tt
weighted_among-AllName (s ∷ sinks) zero counter = tt
weighted_among-AllName (s ∷ sinks) (suc total) counter =
    (pick_weighted-Names (counter % suc total) 0 s.id s sinks, tt)

draw_among-AllName : (sinks : List SinkInfo) (draw : ℕ → ℕ) → AllName sinks (draw_among sinks draw)
draw_among-AllName [] draw = tt
draw_among-AllName (s ∷ sinks) draw = id_at-AllName (s ∷ sinks) (draw (length (s ∷ sinks)))

-- Each name in the first list is one in the second.
abbrev Within : List SinkInfo → List SinkInfo → Type 0
Within xs ys = (id : String) → Names xs id → Names ys id

available-true :
    (s : SinkInfo) (c : List SinkInfo) → is_available s ≡ true → available (s ∷ c) ≡ s ∷ available c
unfolding available
available-true s c e = rw (e, available)

available-false :
    (s : SinkInfo) (c : List SinkInfo) → is_available s ≡ false → available (s ∷ c) ≡ available c
unfolding available
available-false s c e = rw (e, available)

Within-tail :
    (s : SinkInfo) (c sinks : List SinkInfo)
    → Within (available (s ∷ c)) sinks
    → Within (available c) sinks
Within-tail s c sinks w id m = elim (Bool-cases (is_available s)) [
  | inl e ↦ w id (rw (available-true s c e) (mem-cons_of_mem s.id m))
  | inr e ↦ w id (rw (available-false s c e) m)
]

Within-head :
    (s : SinkInfo) (c sinks : List SinkInfo)
    → is_available s ≡ true
    → Within (available (s ∷ c)) sinks
    → Names sinks s.id
Within-head s c sinks e w = w s.id (rw (available-true s c e) mem-cons_self)

&&_left : (a b : Bool) → a && b ≡ true → a ≡ true
&&_left true b h = refl
&&_left false b h = cc

least_pending-AllName :
    (sinks : List SinkInfo) (best : Option SinkInfo) (bound : ℤ) (c : List SinkInfo)
    → AllName sinks (id_of best)
    → Within (available c) sinks
    → AllName sinks (id_of (least_pending best bound c))
unfolding least_pending
least_pending-AllName sinks best bound [] h w = h
least_pending-AllName sinks best bound (s ∷ c) h w =
    elim (Bool-cases (is_available s && ltb_ℤ s.pending_count bound)) [
      | inl e ↦
          rw (e, least_pending)
            (least_pending-AllName sinks (some s) s.pending_count c
              (Within-head s c sinks (&&_left _ _ e) w, tt) (Within-tail s c sinks w))
      | inr e ↦
          rw (e, least_pending)
            (least_pending-AllName sinks best bound c h (Within-tail s c sinks w))
    ]

module _ (D : Doubles) where
  open D use {Double, decimal, lt, le}

  least_latency-AllName :
      (sinks : List SinkInfo) (best : Option SinkInfo) (bound : Double) (c : List SinkInfo)
      → AllName sinks (id_of best)
      → Within (available c) sinks
      → AllName sinks (id_of (least_latency_loop D best bound c))
  unfolding least_latency_loop
  least_latency-AllName sinks best bound [] h w = h
  least_latency-AllName sinks best bound (s ∷ c) h w =
      elim (Bool-cases (
        is_available s
        && (lt (avg_latency_us D s) bound
            || (le (avg_latency_us D s) (decimal 0 0)
                && le (decimal 0 0) (avg_latency_us D s)
                && is_none D best)))) [
                  | inl e ↦
                      rw (e, least_latency_loop)
                        (least_latency-AllName sinks (some s) (avg_latency_us D s) c
                          (Within-head s c sinks (&&_left _ _ e) w, tt) (Within-tail s c sinks w))
                  | inr e ↦
                      rw (e, least_latency_loop)
                        (least_latency-AllName sinks best bound c h (Within-tail s c sinks w))
                ]

ids-AllName : (xs ys : List SinkInfo) → Within xs ys → AllName ys (ids xs)
ids-AllName [] ys w = tt
ids-AllName (s ∷ xs) ys w =
    (w s.id mem-cons_self, ids-AllName xs ys (λ id m. w id (mem-cons_of_mem s.id m)))

by_hash-AllName :
    (c : List SinkInfo) (address : Option (List ℕ)) (now : ℕ)
    → AllName (available c) (by_hash c address now)
unfolding select_hash select_by_clock
by_hash-AllName c none now = id_mod-AllName (available c) now
by_hash-AllName c (some address) now =
    id_mod-AllName (available c) (compute_hash fnv_offset address)

-- With every strategy but failover a selection names available candidates only: sinks that are
-- enabled and not unhealthy.
pub select-AllName :
    (D : Doubles) (strategy : LoadBalanceStrategy) (x : Context) (k : Counters) (c : List SinkInfo)
    → strategy ≢ LoadBalanceStrategy.failover
    → AllName (available c) (select D strategy x k c).0
unfolding select
select-AllName D LoadBalanceStrategy.round_robin x k c h = id_mod-AllName (available c) k.plain
select-AllName D LoadBalanceStrategy.weighted_round_robin x k c h =
    weighted_among-AllName (available c) (total_weight (available c)) k.weighted
select-AllName D LoadBalanceStrategy.least_connections x k c h =
    least_pending-AllName (available c) none int64_max c tt (λ id m. m)
select-AllName D LoadBalanceStrategy.least_latency x k c h =
    least_latency-AllName D (available c) none D.greatest c tt (λ id m. m)
select-AllName D LoadBalanceStrategy.hash_based x k c h = by_hash-AllName c x.address x.now
select-AllName D LoadBalanceStrategy.random x k c h = draw_among-AllName (available c) x.draw
select-AllName D LoadBalanceStrategy.failover x k c h = absurd (h refl)
select-AllName D LoadBalanceStrategy.broadcast x k c h =
    ids-AllName (available c) (available c) (λ id m. m)
