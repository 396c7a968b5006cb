-- ===== src/Sinks/Balancer/Least.antt =====
-- `LeastConnectionsBalancer::select` returns an available sink with the fewest pending writes.
use mathlib.Core.List.{Mem, mem-cons_self, mem-cons_of_mem}
use mathlib.Core.Path.{subst}
use ipb.Base.{
  sym, ◌≡◌, refl, inl, inr, Bool, true, false, ◌&&◌, List, [], ◌∷◌, Option, none, some, All,
  Bool-cases, arith,
}
use ipb.Base.Int.{ℤ, ltb_ℤ, ◌≤ℤ◌}
use ipb.Sinks.Info.{SinkInfo, is_available}
use ipb.Sinks.Balancer.{least_pending, int64_max}

-- The bound that goes with a choice.
abbrev bound_of : Option SinkInfo → ℤ
bound_of none = int64_max
bound_of (some s) = s.pending_count

abbrev Chosen : List SinkInfo → Option SinkInfo → Type 0
Chosen c none = Unit
Chosen c (some s) = Mem s c × (is_available s ≡ true)

≤ℤ_trans : (a b d : ℤ) → a ≤ℤ b → b ≤ℤ d → a ≤ℤ d
≤ℤ_trans a b d h k = omega arith

abbrev Least : ℤ → List SinkInfo → Type 0
Least b = All (λ t. is_available t ≡ true → b ≤ℤ t.pending_count)

passes : (a b : Bool) → a && b ≡ true → (a ≡ true) × (b ≡ true)
passes a b h = ground arith

fails : (a b : Bool) → a && b ≡ false → a ≡ true → b ≡ false
fails a b h k = ground arith

below : (a b : ℤ) → ltb_ℤ a b ≡ true → a ≤ℤ b
below a b h = ground arith

not_below : (a b : ℤ) → ltb_ℤ a b ≡ false → b ≤ℤ a
not_below a b h = ground arith

take_step :
    (best : Option SinkInfo) (bound : ℤ) (s : SinkInfo) (c : List SinkInfo)
    → is_available s && ltb_ℤ s.pending_count bound ≡ true
    → least_pending best bound (s ∷ c) ≡ least_pending (some s) s.pending_count c
unfolding least_pending
take_step best bound s c e = rw (e, least_pending)

skip_step :
    (best : Option SinkInfo) (bound : ℤ) (s : SinkInfo) (c : List SinkInfo)
    → is_available s && ltb_ℤ s.pending_count bound ≡ false
    → least_pending best bound (s ∷ c) ≡ least_pending best bound c
unfolding least_pending
skip_step best bound s c e = rw (e, least_pending)

abbrev IsLoopLeast : ℤ → List SinkInfo → Option SinkInfo → Type 0
IsLoopLeast bound c r = (bound_of r ≤ℤ bound) × Least (bound_of r) c

loop_least :
    (best : Option SinkInfo) (bound : ℤ) (c : List SinkInfo)
    → bound_of best ≡ bound
    → IsLoopLeast bound c (least_pending best bound c)
loop_least best bound [] h = unfold least_pending in (rw h (omega arith), tt)
loop_least best bound (s ∷ c) h =
    elim (Bool-cases (is_available s && ltb_ℤ s.pending_count bound)) [
      | inl e ↦
          let ih = loop_least (some s) s.pending_count c refl in
          subst (IsLoopLeast bound (s ∷ c)) (sym (take_step best bound s c e)) (
            ≤ℤ_trans (bound_of (least_pending (some s) s.pending_count c)) s.pending_count bound
                ih.0
                (below s.pending_count bound
                  (passes (is_available s) (ltb_ℤ s.pending_count bound) e).1),
            ((λ a. ih.0), ih.1),
          )
      | inr e ↦
          let ih = loop_least best bound c h in
          subst (IsLoopLeast bound (s ∷ c)) (sym (skip_step best bound s c e)) (
            ih.0,
            (
              (λ a. ≤ℤ_trans (bound_of (least_pending best bound c)) bound s.pending_count ih.0 (
                  not_below s.pending_count bound
                    (fails (is_available s) (ltb_ℤ s.pending_count bound) e a))),
              ih.1,
            ),
          )
    ]

loop-Chosen :
    (pre c : List SinkInfo) (best : Option SinkInfo) (bound : ℤ)
    → Chosen pre best
    → All (λ t. Mem t pre) c
    → Chosen pre (least_pending best bound c)
loop-Chosen pre [] best bound h m = unfold least_pending in h
loop-Chosen pre (s ∷ c) best bound h m =
    elim (Bool-cases (is_available s && ltb_ℤ s.pending_count bound)) [
      | inl e ↦ rw (take_step best bound s c e) (
          loop-Chosen pre c (some s) s.pending_count
            (m.0, (passes (is_available s) (ltb_ℤ s.pending_count bound) e).0) m.1)
      | inr e ↦ rw (skip_step best bound s c e) (loop-Chosen pre c best bound h m.1)
    ]

members : (pre c : List SinkInfo) → ((t : SinkInfo) → Mem t c → Mem t pre) → All (λ t. Mem t pre) c
members pre [] f = tt
members pre (s ∷ c) f = (f s mem-cons_self, members pre c (λ t m. f t (mem-cons_of_mem s m)))

-- What the balancer should choose: an available candidate with no more pending writes than any
-- other available one, or nothing if every available candidate has 2^63 - 1 of them.
abbrev pub IsLeast : List SinkInfo → Option SinkInfo → Type 0
IsLeast c none = Least int64_max c
IsLeast c (some s) = Mem s c × (is_available s ≡ true) × Least s.pending_count c

is_least :
    (c : List SinkInfo) (r : Option SinkInfo) → Least (bound_of r) c → Chosen c r → IsLeast c r
is_least c none l ch = l
is_least c (some s) l ch = (ch.0, ch.1, l)

-- The loop of `LeastConnectionsBalancer::select` returns an available candidate whose number of
-- pending writes is least among the available candidates, or nothing if each of those has at least
-- 2^63 - 1 pending writes.
pub least_pending-IsLeast : (c : List SinkInfo) → IsLeast c (least_pending none int64_max c)
least_pending-IsLeast c =
    is_least c (least_pending none int64_max c) (loop_least none int64_max c refl).1
      (loop-Chosen c c none int64_max tt (members c c (λ t m. m)))
