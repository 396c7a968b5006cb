-- ===== src/RateLimiter/Window.antt =====
-- core/common/include/ipb/common/rate_limiter.hpp: `SlidingWindowLimiter`, one call at a time. The clock's
-- readings, in nanoseconds since its epoch, are arguments, and so is the limit, `rate_per_second_` as a
-- uint64_t.
pub mod Slots
pub mod Doubling
use ipb.Base.{
  ℕ, zero, suc, ◌+◌, ◌-◌, ◌*◌, ◌/◌, ◌%◌, ◌^◌, min, Bool, true, false, List, [], ◌∷◌, if◌then◌else◌,
  ltb, leb, replicate, set, get_or,
}
use ipb.RateLimiter.Bucket.{Stats, zero_stats, add64}

abbrev pub window_slots : ℕ
window_slots = 60

-- `1000000000 / WINDOW_SLOTS`
abbrev pub slot_duration_ns : ℕ
slot_duration_ns = 16666666

pub record Window : Type 0 where
  pub limit : ℕ
  pub slots : List ℕ
  pub last_clear_ns : ℕ
  pub stats : Stats

abbrev pub fresh : ℕ → Window
fresh limit = record {
  limit = limit;
  slots = replicate 60 0;
  last_clear_ns = 0;
  stats = zero_stats;
}

-- The loop of `clear_old_slots`, from a slot on.
unfoldable pub clear_from : ℕ → ℕ → List ℕ → List ℕ
clear_from zero start slots = slots
clear_from (suc n) start slots = clear_from n (start + 1) (set slots (start % 60) 0)

-- `clear_old_slots`
unfoldable pub clear_old_slots : ℕ → Window → Window
clear_old_slots now w = if ltb now (w.last_clear_ns + 16666666) then w else record w {
  slots =
      clear_from (min ((now - w.last_clear_ns) / 16666666) 60)
        ((w.last_clear_ns / 16666666 + 1) % 60) w.slots;
  last_clear_ns = now;
}

-- The requests in the window, a uint64_t: `current_rate`, and the loop of `try_acquire`.
unfoldable pub total : List ℕ → ℕ
total [] = 0
total (n ∷ slots) = (n + total slots) % 2 ^ 64

-- What follows the clearing in `try_acquire`.
unfoldable pub record_request : ℕ → Window → Bool × Window
record_request slot w =
    if leb w.limit (total w.slots)
    then (false, record w { stats = record w.stats { rejected = add64 1 w.stats.rejected } })
    else (
      true,
      record w {
        slots = set w.slots slot (add64 1 (get_or w.slots slot 0));
        stats = record w.stats { allowed = add64 1 w.stats.allowed };
      },
    )

-- `try_acquire`, at the time `now`.
unfoldable pub try_acquire : ℕ → Window → Bool × Window
try_acquire now w = record_request (now / 16666666 % 60) (
    clear_old_slots now
      (record w { stats = record w.stats { requests = add64 1 w.stats.requests } }))
