-- ===== src/RateLimiter/Window/Doubling.antt =====
-- How `SlidingWindowLimiter` (rate_limiter.hpp) clears a slot that is in use.
use ipb.Base.{
  ℕ, zero, suc, ◌+◌, ◌-◌, ◌*◌, ◌/◌, ◌%◌, ◌^◌, ◌≤◌, ◌<◌, ◌≡◌, ◌≢◌, refl, ap, min, true, false, List,
  [], ◌∷◌, ◌++◌, if◌then◌else◌, ltb, leb, replicate, set, get_or, get_or-set_self, get_or-set_ne,
  length, length-set, arith, ◌∙◌,
}
use ipb.RateLimiter.Bucket.{Stats, add64, zero_stats}
use ipb.RateLimiter.Window.{
  Window, fresh, clear_from, clear_old_slots, total, record_request, try_acquire,
}
use ipb.RateLimiter.Window.Slots.{sum, sum-set, total-eq-sum}

set-set : (xs : List ℕ) (i u v : ℕ) → set (set xs i u) i v ≡ set xs i v
set-set [] i u v = refl
set-set (x ∷ xs) zero u v = refl
set-set (x ∷ xs) (suc i) u v = ap (◌∷◌ x) (set-set xs i u v)

get_or-replicate : (n i : ℕ) → get_or {A = ℕ} (replicate n 0) i 0 ≡ 0
get_or-replicate zero i = refl
get_or-replicate (suc n) zero = refl
get_or-replicate (suc n) (suc i) = get_or-replicate n i

-- Emptying a slot that is empty.
set_empty : (xs : List ℕ) (i : ℕ) → get_or {A = ℕ} xs i 0 ≡ 0 → xs ≡ set xs i 0
set_empty [] i h = refl
set_empty (x ∷ xs) zero h = ap (λ y. y ∷ xs) h
set_empty (x ∷ xs) (suc i) h = ap (◌∷◌ x) (set_empty xs i h)

clear_from-replicate : (n start : ℕ) → clear_from n start (replicate 60 0) ≡ replicate 60 0
unfolding clear_from
clear_from-replicate zero start = refl
clear_from-replicate (suc n) start =
    rw (← set_empty (replicate 60 0) (start % 60) (get_or-replicate 60 (start % 60)))
      (clear_from-replicate n (start + 1))

-- Sixty slots with `c` requests in them and none in the slot `s`.
record IsBase (c s : ℕ) (base : List ℕ) : Type 0 where
  sixty : length base ≡ 60
  sums : sum base ≡ c
  empty : get_or base s 0 ≡ 0

total-base :
    (c s v : ℕ) (base : List ℕ)
    → IsBase c s base
    → s < 60
    → c + v < 2 ^ 64
    → total (set base s v) ≡ c + v
total-base c s v base b h small =
    let e : sum (set base s v) ≡ c + v =
      omega (arith, sum-set base s v (omega (arith, b.sixty)), b.empty, b.sums) in
    omega (arith, total-eq-sum (set base s v) (omega arith))

-- A limiter that has counted `v` requests in the slot `s`, with `base` in the others.
record Counts (base : List ℕ) (limit last s v : ℕ) (w : Window) : Type 0 where
  limited : w.limit ≡ limit
  cleared : w.last_clear_ns ≡ last
  counted : w.slots ≡ set base s v

module _ (c s : ℕ) (base : List ℕ) (b : IsBase c s base) (h : s < 60) where
  record-Counts :
      (limit last v : ℕ) (w : Window)
      → limit < 2 ^ 64
      → c + v < limit
      → Counts base limit last s v w
      → ((record_request s w).0 ≡ true) × Counts base limit last s (suc v) (record_request s w).1
  unfolding record_request
  record-Counts limit last v w small room k =
      let open_slot : leb limit (c + v) ≡ false = ground arith in
      let next : add64 1 v ≡ suc v = omega arith in
      simp
        (
          k.limited,
          k.cleared,
          k.counted,
          total-base c s v base b h (omega arith),
          open_slot,
          get_or-set_self base s v 0 (omega (arith, b.sixty)),
          next,
          set-set base s v (suc v),
        )
        (refl, record { limited = refl; cleared = refl; counted = refl })

  -- A request within a slot's time of the last clearing, in the slot `s`.
  admit-Counts :
      (limit last v now : ℕ) (w : Window)
      → limit < 2 ^ 64
      → c + v < limit
      → now < last + 16666666
      → now / 16666666 % 60 ≡ s
      → Counts base limit last s v w
      → ((try_acquire now w).0 ≡ true) × Counts base limit last s (suc v) (try_acquire now w).1
  unfolding try_acquire clear_old_slots
  admit-Counts limit last v now w small room soon here k =
      let keep : ltb now (w.last_clear_ns + 16666666) ≡ true = ground (arith, k.cleared) in
      simp (keep, here)
        (record-Counts limit last v
          (record w { stats = record w.stats { requests = add64 1 w.stats.requests } }) small room
          (record { limited = k.limited; cleared = k.cleared; counted = k.counted }))

-- The first request a slot's time after the last clearing: the slot that follows the last clearing's is
-- emptied, though it is the one in use.
forget-Counts :
    (c limit last v : ℕ) (base : List ℕ) (w : Window)
    → IsBase c ((last / 16666666 + 1) % 60) base
    → limit < 2 ^ 64
    → c < limit
    → Counts base limit last ((last / 16666666 + 1) % 60) v w
    → ((try_acquire (last + 16666666) w).0 ≡ true)
      × Counts base limit
          (last + 16666666)
          ((last / 16666666 + 1) % 60)
          1
          (try_acquire (last + 16666666) w).1
unfolding try_acquire clear_old_slots clear_from
forget-Counts c limit last v base w b small room k =
    let s = (last / 16666666 + 1) % 60 in
    let over : ltb (last + 16666666) (last + 16666666) ≡ false = ground arith in
    let one : min ((last + 16666666 - last) / 16666666) 60 ≡ suc zero = omega arith in
    let here : (last + 16666666) / 16666666 % 60 ≡ s = omega arith in
    let there : s % 60 ≡ s = omega arith in
    let stats' : Stats = record w.stats { requests = add64 1 w.stats.requests } in
    simp (k.cleared, k.counted, over, one, here, there, set-set base s v 0)
      (record-Counts c s base b (omega arith) limit (last + 16666666) 0
        (record {
          limit = w.limit;
          slots = set base s 0;
          last_clear_ns = last + 16666666;
          stats = stats';
        })
        small (omega arith) (record { limited = k.limited; cleared = refl; counted = refl }))

-- The first request of a new limiter, a slot's time or more after the clock's start.
first-Counts :
    (limit last : ℕ)
    → limit < 2 ^ 64
    → 0 < limit
    → 16666666 ≤ last
    → ((try_acquire last (fresh limit)).0 ≡ true)
      × Counts
          (replicate 60 0)
          limit
          last
          (last / 16666666 % 60)
          1
          (try_acquire last (fresh limit)).1
unfolding try_acquire clear_old_slots
first-Counts limit last small room late =
    let s = last / 16666666 % 60 in
    let over : ltb last (0 + 16666666) ≡ false = ground arith in
    let none_there = get_or-replicate 60 s in
    simp (over, clear_from-replicate (min ((last - 0) / 16666666) 60) ((0 / 16666666 + 1) % 60))
      (record-Counts 0 s (replicate 60 0) (record { sixty = refl; sums = refl; empty = none_there })
        (omega arith) limit last 0
        (record {
          limit = limit;
          slots = replicate 60 0;
          last_clear_ns = last;
          stats = record zero_stats { requests = add64 1 0 };
        })
        small (omega arith)
        (record {
          limited = refl;
          cleared = refl;
          counted = set_empty (replicate 60 0) s none_there;
        }))

-- Requests at given times: how many are allowed, and the limiter afterwards.
abbrev pub run : List ℕ → Window → ℕ × Window
run [] w = (0, w)
run (now ∷ times) w =
    let (ok, w') = try_acquire now w in
    let (n, w'') = run times w' in ((if ok then 1 else 0) + n, w'')

-- A batch at one time, with requests behind it.
fill :
    (c n limit last s v now : ℕ) (times base : List ℕ) (w : Window)
    → IsBase c s base
    → s < 60
    → limit < 2 ^ 64
    → c + v + n ≤ limit
    → now < last + 16666666
    → now / 16666666 % 60 ≡ s
    → Counts base limit last s v w
    → (w' : Window) × ((run (replicate n now ++ times) w).0 ≡ n + (run times w').0)
      × Counts base limit last s (v + n) w'
fill c zero limit last s v now times base w b h small room soon here k =
    (w, omega arith, rw (plus_zero v) k)
  where
    plus_zero : (n : ℕ) → n + 0 ≡ n
    plus_zero n = omega arith
fill c (suc n) limit last s v now times base w b h small room soon here k =
    let a = admit-Counts c s base b h limit last v now w small (omega arith) soon here k in
    let (w', e, d) =
      fill c n limit last s (suc v) now times base (try_acquire now w).1 b h small (omega arith)
        soon here a.1 in
    (w', rw (a.0, e) (omega arith), rw (shift v n) d)
  where
    shift : (v n : ℕ) → v + suc n ≡ suc v + n
    shift v n = omega arith

-- The slots after that first request: one request, and none in the slot that follows.
one_counted :
    (last : ℕ)
    → IsBase 1 ((last / 16666666 + 1) % 60) (set (replicate 60 0) (last / 16666666 % 60) 1)
one_counted last =
    let s = last / 16666666 % 60 in
    let next = (last / 16666666 + 1) % 60 in
    let slots : List ℕ = replicate 60 0 in
    record {
      sixty = omega (arith, length-set slots s 1);
      sums = omega (arith, sum-set slots s 1 (omega arith), get_or-replicate 60 s);
      empty = get_or-set_ne slots s next 1 0 (λ e. absurd (omega arith)) ∙ get_or-replicate 60 next;
    }

-- A new limiter with a limit of n + 1 that gets a request inside a slot (`last` is no multiple of the
-- slot's time, and at least that), n more at the start of the next slot, and n at the time `last` and one
-- slot's time: it allows them all, 2 * n + 1 requests within one slot's time, a sixtieth of its window.
pub run_twice :
    (n last : ℕ)
    → n < 2 ^ 63
    → 16666666 ≤ last
    → last % 16666666 ≢ 0
    → let first = (last / 16666666 + 1) * 16666666 in
      let second = last + 16666666 in
      ((run (last ∷ (replicate n first ++ (replicate n second ++ []))) (fresh (suc n))).0
        ≡ 1 + 2 * n)
      × (last < first)
      × (first < second)
run_twice zero last small late inside =
    let f = first-Counts 1 last (omega arith) (omega arith) late in
    (rw f.0 refl, omega arith, omega arith)
run_twice (suc n) last small late inside =
    let limit : ℕ = suc (suc n) in
    let s = (last / 16666666 + 1) % 60 in
    let first = (last / 16666666 + 1) * 16666666 in
    let second = last + 16666666 in
    let base : List ℕ = set (replicate 60 0) (last / 16666666 % 60) 1 in
    let b = one_counted last in
    let f = first-Counts limit last (omega arith) (omega arith) late in
    let w0 = (try_acquire last (fresh limit)).1 in
    let k0 : Counts base limit last s 0 w0 = record {
      limited = f.1.limited;
      cleared = f.1.cleared;
      counted = f.1.counted ∙ set_empty base s b.empty;
    } in
    let (w1, e1, k1) =
      fill 1 (suc n) limit last s 0 first (replicate (suc n) second ++ []) base w0 b (omega arith)
        (omega arith) (omega arith) (omega arith) (omega arith) k0 in
    let g = forget-Counts 1 limit last (0 + suc n) base w1 b (omega arith) (omega arith) k1 in
    let (w2, e2, k2) =
      fill 1 n limit second s 1 second [] base (try_acquire second w1).1 b (omega arith)
        (omega arith) (omega arith) (omega arith) (omega arith) g.1 in
    (rw (f.0, e1, g.0, e2) (omega arith), omega arith, omega arith)
