-- ===== src/Sinks/Balancer.antt =====
-- core/components/src/sink_registry/load_balancer.cpp: one selection of each strategy.
pub mod Sound
pub mod Weighted
pub mod Least
pub mod Failover
pub mod Fair
use Prim.Native.Nat.{bit_xor}
use Prim.Native.String.{String}
use ipb.Base.{
  ℕ, zero, suc, ◌+◌, ◌-◌, ◌*◌, ◌%◌, ◌^◌, ◌≡◌, Bool, true, false, ◌&&◌, ◌||◌, not, List, [], ◌∷◌,
  Option, none, some, if◌then◌else◌, ltb, leb, ◌==◌, length, get_elem?, map,
}
use ipb.Base.Int.{ℤ, pos, ltb_ℤ}
use ipb.Base.Double.{Doubles}
use ipb.Sinks.Info.{SinkInfo, SinkHealth, is_available, available}

pub data LoadBalanceStrategy : Type 0 where
  round_robin weighted_round_robin least_connections least_latency : LoadBalanceStrategy
  hash_based random failover broadcast : LoadBalanceStrategy

-- `{available[index]->id}`; an index out of range does not occur, as the laws show.
abbrev pub id_at : List SinkInfo → ℕ → List String
id_at sinks i = elim (get_elem? sinks i) [ none ↦ [] | some s ↦ s.id ∷ [] ]

abbrev pub id_of : Option SinkInfo → List String
id_of none = []
id_of (some s) = s.id ∷ []

-- `{available[hash % available.size()]->id}`, or nothing where no sink is available.
abbrev pub id_mod : List SinkInfo → ℕ → List String
id_mod [] n = []
id_mod (s ∷ sinks) n = id_at (s ∷ sinks) (n % length (s ∷ sinks))

-- `counter_.fetch_add(1)`, on a uint64_t.
abbrev pub next : ℕ → ℕ
next counter = (counter + 1) % 2 ^ 64

abbrev pub next_if_some : List SinkInfo → ℕ → ℕ
next_if_some [] counter = counter
next_if_some (s ∷ sinks) counter = next counter

-- `RoundRobinBalancer::select`: the ids, and `counter_` afterwards.
unfoldable pub select_round_robin : List SinkInfo → ℕ → List String × ℕ
select_round_robin candidates counter =
    (id_mod (available candidates) counter, next_if_some (available candidates) counter)

-- `total_weight`, a uint64_t.
pub total_weight : List SinkInfo → ℕ
total_weight [] = 0
total_weight (s ∷ sinks) = (s.weight + total_weight sinks) % 2 ^ 64

-- The loop over `available` and the fallback to its last sink, which is `last`.
pub pick_weighted : ℕ → ℕ → String → List SinkInfo → String
pick_weighted target cumulative last [] = last
pick_weighted target cumulative last (s ∷ sinks) =
    let rest = pick_weighted target ((cumulative + s.weight) % 2 ^ 64) s.id sinks in
    if ltb target ((cumulative + s.weight) % 2 ^ 64) then s.id else rest

abbrev pub weighted_among : List SinkInfo → ℕ → ℕ → List String × ℕ
weighted_among [] total counter = ([], counter)
weighted_among (s ∷ sinks) zero counter = ([], counter)
weighted_among (s ∷ sinks) (suc total) counter =
    (pick_weighted (counter % suc total) 0 s.id (s ∷ sinks) ∷ [], next counter)

-- `WeightedRoundRobinBalancer::select`
pub select_weighted : List SinkInfo → ℕ → List String × ℕ
unfolding total_weight pick_weighted
select_weighted candidates counter =
    weighted_among (available candidates) (total_weight (available candidates)) counter

-- The loop of `LeastConnectionsBalancer::select`, from `best` and `min_pending` on.
pub least_pending : Option SinkInfo → ℤ → List SinkInfo → Option SinkInfo
least_pending best bound [] = best
least_pending best bound (s ∷ candidates) = elim (is_available s && ltb_ℤ s.pending_count bound) [
  | true ↦ least_pending (some s) s.pending_count candidates
  | false ↦ least_pending best bound candidates
]

abbrev pub int64_max : ℤ
int64_max = pos (2 ^ 63 - 1)

-- `LeastConnectionsBalancer::select`
pub select_least_connections : List SinkInfo → List String
unfolding least_pending
select_least_connections candidates = id_of (least_pending none int64_max candidates)

module _ (D : Doubles) where
  open D use {Double, of_int, decimal, div, lt, le, greatest}

  -- `SinkInfo::avg_latency_us`
  pub avg_latency_us : SinkInfo → Double
  avg_latency_us s =
      if ltb 0 s.messages_sent
      then div (div (of_int s.total_latency_ns) (of_int (pos s.messages_sent))) (decimal 1000 0)
      else decimal 0 0

  abbrev pub is_none : Option SinkInfo → Bool
  is_none none = true
  is_none (some s) = false

  -- The loop of `LeastLatencyBalancer::select`.
  pub least_latency_loop : Option SinkInfo → Double → List SinkInfo → Option SinkInfo
  unfolding avg_latency_us
  least_latency_loop best bound [] = best
  least_latency_loop best bound (s ∷ candidates) =
      let latency = avg_latency_us s in
      elim (is_available s
        && (lt latency bound
            || (le latency (decimal 0 0) && le (decimal 0 0) latency && is_none best))) [
              | true ↦ least_latency_loop (some s) latency candidates
              | false ↦ least_latency_loop best bound candidates
            ]

  -- `LeastLatencyBalancer::select`
  pub select_least_latency : List SinkInfo → List String
  unfolding least_latency_loop
  select_least_latency candidates = id_of (least_latency_loop none greatest candidates)

-- `static_cast<size_t>(c)` for a `char` that is signed, as on x86-64.
abbrev sign_extend : ℕ → ℕ
sign_extend c = if ltb c 128 then c else c + (2 ^ 64 - 256)

-- `HashBasedBalancer::compute_hash`: FNV-1a over the bytes of the address, on a size_t.
pub compute_hash : ℕ → List ℕ → ℕ
compute_hash hash [] = hash
compute_hash hash (c ∷ address) =
    compute_hash (bit_xor hash (sign_extend c) * 1099511628211 % 2 ^ 64) address

abbrev pub fnv_offset : ℕ
fnv_offset = 14695981039346656037

-- `HashBasedBalancer::select` with the address of the data point, and without: the latter hashes by
-- the clock.
pub select_hash : List SinkInfo → List ℕ → List String
unfolding compute_hash
select_hash candidates address = id_mod (available candidates) (compute_hash fnv_offset address)

pub select_by_clock : List SinkInfo → ℕ → List String
select_by_clock candidates now = id_mod (available candidates) now

abbrev draw_among : List SinkInfo → (ℕ → ℕ) → List String
draw_among [] draw = []
draw_among (s ∷ sinks) draw = id_at (s ∷ sinks) (draw (length (s ∷ sinks)))

-- `RandomBalancer::select`; `draw n` is what `uniform_int_distribution(0, n - 1)` yields.
pub select_random : List SinkInfo → (ℕ → ℕ) → List String
select_random candidates draw = draw_among (available candidates) draw

-- `std::sort` by priority. The library leaves the order of equal priorities open; here they keep the
-- order of the candidates.
pub insert_by_priority : SinkInfo → List SinkInfo → List SinkInfo
insert_by_priority s [] = s ∷ []
insert_by_priority s (t ∷ sorted) =
    let rest = insert_by_priority s sorted in
    if leb s.priority t.priority then s ∷ (t ∷ sorted) else t ∷ rest

pub sort_by_priority : List SinkInfo → List SinkInfo
unfolding insert_by_priority
sort_by_priority [] = []
sort_by_priority (s ∷ candidates) = insert_by_priority s (sort_by_priority candidates)

pub first_available : List SinkInfo → Option SinkInfo
first_available [] = none
first_available (s ∷ sinks) =
    let rest = first_available sinks in if is_available s then some s else rest

pub first_enabled : List SinkInfo → Option SinkInfo
first_enabled [] = none
first_enabled (s ∷ sinks) = let rest = first_enabled sinks in if s.enabled then some s else rest

abbrev pub or_else : Option SinkInfo → Option SinkInfo → Option SinkInfo
or_else none o = o
or_else (some s) o = some s

-- The sink that `FailoverBalancer::select` returns.
pub failover_choice : List SinkInfo → Option SinkInfo
unfolding sort_by_priority first_available first_enabled
failover_choice candidates =
    let sorted = sort_by_priority candidates in
    or_else (first_available sorted) (first_enabled sorted)

-- `FailoverBalancer::select`
pub select_failover : List SinkInfo → List String
unfolding failover_choice
select_failover candidates = id_of (failover_choice candidates)

-- `BroadcastBalancer::select`
pub select_broadcast : List SinkInfo → List String
select_broadcast candidates = map (λ s. s.id) (available candidates)

-- What the balancers keep between calls: the counters of the two round-robin balancers.
pub record Counters : Type 0 where
  pub plain : ℕ
  pub weighted : ℕ

-- What a selection reads from outside: the address of the data point if it has one, the clock, and
-- the random numbers.
pub record Context : Type 0 where
  pub address : Option (List ℕ)
  pub now : ℕ
  pub draw : ℕ → ℕ

abbrev pub by_hash : List SinkInfo → Option (List ℕ) → ℕ → List String
by_hash candidates none now = select_by_clock candidates now
by_hash candidates (some address) now = select_hash candidates address

-- `balancers_[strategy]->select(candidates)`, with the data point for context or without.
unfoldable pub select :
    Doubles → LoadBalanceStrategy → Context → Counters → List SinkInfo → List String × Counters
unfolding select_round_robin select_weighted select_least_connections select_least_latency
    select_hash select_by_clock select_random select_failover select_broadcast
select D round_robin x k c =
    let (ids, n) = select_round_robin c k.plain in (ids, record k { plain = n })
select D weighted_round_robin x k c =
    let (ids, n) = select_weighted c k.weighted in (ids, record k { weighted = n })
select D least_connections x k c = (select_least_connections c, k)
select D least_latency x k c = (select_least_latency D c, k)
select D hash_based x k c = (by_hash c x.address x.now, k)
select D random x k c = (select_random c x.draw, k)
select D failover x k c = (select_failover c, k)
select D broadcast x k c = (select_broadcast c, k)
