-- ===== src/RateLimiter/Window/Slots.antt =====
-- The bound that `SlidingWindowLimiter` (rate_limiter.hpp) keeps, and the one that it does not.
use ipb.Base.{
  ℕ, zero, suc, ◌+◌, ◌-◌, ◌/◌, ◌%◌, ◌^◌, ◌≤◌, ◌<◌, ◌≡◌, refl, inl, inr, min, false, List, [], ◌∷◌,
  ltb, leb, set, get_or, length, length-set, arith, Bool-cases,
}
use ipb.RateLimiter.Bucket.{add64}
use ipb.RateLimiter.Window.{Window, clear_from, clear_old_slots, total, record_request, try_acquire}

-- The sum that does not wrap.
abbrev pub sum : List ℕ → ℕ
sum [] = 0
sum (n ∷ slots) = n + sum slots

pub total-eq-sum : (slots : List ℕ) → sum slots < 2 ^ 64 → total slots ≡ sum slots
unfolding total
total-eq-sum [] h = refl
total-eq-sum (n ∷ slots) h = omega (arith, total-eq-sum slots (omega arith))

pub sum-set :
    (slots : List ℕ) (i v : ℕ)
    → i < length slots
    → sum (set slots i v) + get_or slots i 0 ≡ sum slots + v
sum-set [] i v h = absurd (omega arith)
sum-set (n ∷ slots) zero v h = omega arith
sum-set (n ∷ slots) (suc i) v h = omega (arith, sum-set slots i v (omega arith))

sum-clear_from :
    (n start : ℕ) (slots : List ℕ)
    → length slots ≡ 60
    → (sum (clear_from n start slots) ≤ sum slots) × (length (clear_from n start slots) ≡ 60)
unfolding clear_from
sum-clear_from zero start slots h = (omega arith, h)
sum-clear_from (suc n) start slots h =
    let rest =
      sum-clear_from n (start + 1) (set slots (start % 60) 0)
        (omega (arith, length-set slots (start % 60) 0)) in
    (omega (arith, rest.0, sum-set slots (start % 60) 0 (omega arith)), rest.1)

-- There are sixty slots, and the requests counted in them are within the limit.
pub record IsValid (w : Window) : Type 0 where
  pub sixty : length w.slots ≡ 60
  pub within : sum w.slots ≤ w.limit
  pub small : w.limit < 2 ^ 64

clear_old_slots-IsValid : (now : ℕ) (w : Window) → IsValid w → IsValid (clear_old_slots now w)
unfolding clear_old_slots
clear_old_slots-IsValid now w v = elim (Bool-cases (ltb now (w.last_clear_ns + 16666666))) [
  | inl e ↦ rw e v
  | inr e ↦
      let c =
        sum-clear_from (min ((now - w.last_clear_ns) / 16666666) 60)
          ((w.last_clear_ns / 16666666 + 1) % 60) w.slots v.sixty in
      rw e (record { sixty = c.1; within = omega (arith, c.0, v.within); small = v.small })
]

record_request-IsValid :
    (slot : ℕ) (w : Window) → slot < 60 → IsValid w → IsValid (record_request slot w).1
unfolding record_request
record_request-IsValid slot w h v = elim (Bool-cases (leb w.limit (total w.slots))) [
  | inl e ↦ rw e (record { sixty = v.sixty; within = v.within; small = v.small })
  | inr e ↦
      let room : sum w.slots < w.limit =
        room_left w.limit (total w.slots) (sum w.slots) e
          (total-eq-sum w.slots (omega (arith, v.within, v.small))) in
      rw e (record {
        sixty = omega (arith, length-set w.slots slot (add64 1 (get_or w.slots slot 0)), v.sixty);
        within = omega (
          arith,
          room,
          sum-set w.slots slot (add64 1 (get_or w.slots slot 0)) (omega (arith, v.sixty)),
        );
        small = v.small;
      })
]
  where
    room_left : (limit t s : ℕ) → leb limit t ≡ false → t ≡ s → s < limit
    room_left limit t s h k = ground arith

-- A request, at any time, keeps the counted requests within the limit.
pub try_acquire-IsValid : (now : ℕ) (w : Window) → IsValid w → IsValid (try_acquire now w).1
unfolding try_acquire
try_acquire-IsValid now w v = record_request-IsValid (now / 16666666 % 60) _ (omega arith) (
    clear_old_slots-IsValid now
      (record w { stats = record w.stats { requests = add64 1 w.stats.requests } })
      (record { sixty = v.sixty; within = v.within; small = v.small }))
