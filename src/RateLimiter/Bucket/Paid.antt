-- ===== src/RateLimiter/Bucket/Paid.antt =====
-- What the calls of `TokenBucket` (rate_limiter.hpp) pay their tokens with: how the tokens, the time of refill
-- and what was credited go together.
use native.Mathlib.Nat.{mul-add, add-mul}
use ipb.Base.{
  ℕ, ◌+◌, ◌*◌, ◌^◌, ◌<◌, ◌≡◌, refl, ap, ◌∙◌, inl, inr, Bool, true, false, arith, Bool-cases,
}
use ipb.Base.Int.{
  ℤ, pos, pos_part, neg_part, ◌+ℤ◌, ◌-ℤ◌, ◌≤ℤ◌, leb_ℤ, min_ℤ, int_laws, +ℤ_parts, -ℤ_parts,
}
use ipb.Base.Double.{Doubles}
use ipb.RateLimiter.Bucket.Rate.{Rounding, Worth, IsModerate, new_tokens-Worth}
use ipb.RateLimiter.Bucket.{Bucket, Stats, scaled, new_tokens, refill, consume}

-- A number of tokens that fits in 64 bits keeps its value.
pub scaled_small : (count : ℕ) → count * 1000000 < 2 ^ 63 → scaled count ≡ pos (count * 1000000)
unfolding scaled
scaled_small count h = ground arith

-- The request's tokens, if it is granted.
abbrev pub granted : Bool → ℕ → ℕ
granted true count = count
granted false count = 0

module _ (D : Doubles) where
  -- The number of tokens is between none and the burst size, and the time is that of a clock.
  pub record IsValid (b : Bucket D) : Type 0 where
    pub small : b.config.burst_size * 1000000 < 2 ^ 63
    pub lower : pos 0 ≤ℤ b.tokens
    pub upper : b.tokens ≤ℤ pos (b.config.burst_size * 1000000)
    pub started : pos 0 ≤ℤ b.last_refill_ns

  -- From `b` to `b'` some time passed, what was credited is worth it at p / q tokens per second, and the
  -- tokens left and spent are paid by what was credited.
  pub record Paid (p q spent : ℕ) (b b' : Bucket D) : Type 0 where
    pub time : ℕ
    pub credit : ℕ
    pub credited : b'.last_refill_ns ≡ b.last_refill_ns +ℤ pos time
    pub worth : Worth p q credit time
    pub paid : b'.tokens +ℤ pos (spent * 1000000) ≤ℤ b.tokens +ℤ pos credit
    pub same : b'.config ≡ b.config
    pub valid : IsValid b'

  elapsed-cases : (a : ℤ) → leb_ℤ a (pos 0) ≡ false → a ≡ pos (pos_part a)
  elapsed-cases a h = ground arith

  later : (now last : ℤ) (e : ℕ) → now -ℤ last ≡ pos e → now ≡ last +ℤ pos e
  later now last e h = omega (int_laws, ap pos_part h, ap neg_part h)

  min-le : (a b : ℤ) → (min_ℤ a b ≤ℤ a) × (min_ℤ a b ≤ℤ b)
  min-le a b = ground arith

  min-ge : (a b c : ℤ) → c ≤ℤ a → c ≤ℤ b → c ≤ℤ min_ℤ a b
  min-ge a b c h k = ground arith

  not_le : (a : ℤ) → leb_ℤ a (pos 0) ≡ false → pos 0 ≤ℤ a
  not_le a h = ground arith

  no_time : (a : ℤ) → a ≡ a +ℤ pos 0
  no_time a = omega int_laws

  pub stay-Paid : (p q : ℕ) (b : Bucket D) → IsValid b → Paid p q 0 b b
  stay-Paid p q b v = record {
    time = 0;
    credit = 0;
    credited = no_time b.last_refill_ns;
    worth = omega arith;
    paid = omega (arith, +ℤ_parts b.tokens (pos (0 * 1000000)), +ℤ_parts b.tokens (pos 0));
    same = refl;
    valid = v;
  }

  -- A refill of some tokens.
  add-Paid :
      (p q time credit : ℕ) (now : ℤ) (b : Bucket D)
      → IsValid b
      → now ≡ b.last_refill_ns +ℤ pos time
      → Worth p q credit time
      → Paid p q 0 b (record b {
        last_refill_ns = now;
        tokens = min_ℤ (b.tokens +ℤ pos credit) (scaled b.config.burst_size);
      })
  add-Paid p q time credit now b v passed worth =
      let bound = min-le (b.tokens +ℤ pos credit) (scaled b.config.burst_size) in
      record {
        time = time;
        credit = credit;
        credited = passed;
        worth = worth;
        paid = omega (
          arith,
          bound.0,
          +ℤ_parts (min_ℤ (b.tokens +ℤ pos credit) (scaled b.config.burst_size))
              (pos (0 * 1000000)),
        );
        same = refl;
        valid = record {
          small = v.small;
          lower =
              min-ge (b.tokens +ℤ pos credit) (scaled b.config.burst_size) (pos 0)
                (omega (arith, +ℤ_parts b.tokens (pos credit), v.lower))
                (rw (scaled_small b.config.burst_size v.small) (omega arith));
          upper =
              rw (scaled_small b.config.burst_size v.small)
                ((min-le (b.tokens +ℤ pos credit) (pos (b.config.burst_size * 1000000))).1);
          started = omega (
            arith,
            v.started,
            ap pos_part passed,
            ap neg_part passed,
            +ℤ_parts b.last_refill_ns (pos time),
          );
        };
      }

  pub refill-Paid :
      (R : Rounding D) (p q : ℕ) (now : ℤ) (b : Bucket D)
      → IsValid b
      → R.AtMost b.config.rate_per_second p q
      → IsModerate p q
      → pos_part now < 2 ^ 63
      → Paid p q 0 b (refill D now b)
  unfolding refill
  refill-Paid R p q now b v most moderate small =
      let elapsed = now -ℤ b.last_refill_ns in
      let added = new_tokens D b.config.rate_per_second elapsed in
      elim (Bool-cases (leb_ℤ elapsed (pos 0))) [
        | inl e ↦ rw e (stay-Paid p q b v)
        | inr e ↦ elim (Bool-cases (leb_ℤ added (pos 0))) [
          | inl f ↦ rw (e, f) (stay-Paid p q b v)
          | inr f ↦
              let is_pos = elapsed-cases elapsed e in
              let fits : pos_part elapsed < 2 ^ 63 =
                omega
                  (arith, v.started, small, ap neg_part is_pos, -ℤ_parts now b.last_refill_ns) in
              let worth =
                new_tokens-Worth D R b.config.rate_per_second p q (pos_part elapsed) most moderate
                  (some_time elapsed e) fits in
              let worth' : Worth p q (pos_part added) (pos_part elapsed) = rw is_pos worth in
              rw (e, f, elapsed-cases added f)
                (add-Paid p q (pos_part elapsed) (pos_part added) now b v
                  (later now b.last_refill_ns (pos_part elapsed) is_pos) worth')
        ]
      ]
    where
      some_time : (a : ℤ) → leb_ℤ a (pos 0) ≡ false → 0 < pos_part a
      some_time a h = ground arith

  pub consume-Paid :
      (p q count : ℕ) (b : Bucket D)
      → IsValid b
      → count * 1000000 < 2 ^ 63
      → let (ok, b') = consume D count b in Paid p q (granted ok count) b b'
  unfolding consume
  consume-Paid p q count b v small =
      rw (scaled_small count small) (elim (Bool-cases (leb_ℤ (pos (count * 1000000)) b.tokens)) [
        | inl e ↦
            let left : pos 0 ≤ℤ b.tokens -ℤ pos (count * 1000000) = omega (
              arith,
              -ℤ_parts b.tokens (pos (count * 1000000)),
              leb→le (pos (count * 1000000)) b.tokens e,
            ) in
            rw e (record {
              time = 0;
              credit = 0;
              credited = no_time b.last_refill_ns;
              worth = omega arith;
              paid = omega (
                arith,
                -ℤ_parts b.tokens (pos (count * 1000000)),
                +ℤ_parts (b.tokens -ℤ pos (count * 1000000)) (pos (count * 1000000)),
                +ℤ_parts b.tokens (pos 0),
              );
              same = refl;
              valid = record {
                small = v.small;
                lower = left;
                upper = omega (arith, v.upper, -ℤ_parts b.tokens (pos (count * 1000000)));
                started = v.started;
              };
            })
        | inr e ↦ rw e (record {
          time = 0;
          credit = 0;
          credited = no_time b.last_refill_ns;
          worth = omega arith;
          paid = omega (arith, +ℤ_parts b.tokens (pos (0 * 1000000)), +ℤ_parts b.tokens (pos 0));
          same = refl;
          valid = record { small = v.small; lower = v.lower; upper = v.upper; started = v.started };
        })
      ])
    where
      leb→le : (a b : ℤ) → leb_ℤ a b ≡ true → a ≤ℤ b
      leb→le a b h = ground arith

  -- Two stretches, one after the other.
  pub Paid-trans :
      (p q m n : ℕ) (a b c : Bucket D) → Paid p q m a b → Paid p q n b c → Paid p q (m + n) a c
  Paid-trans p q m n a b c x y = record {
    time = x.time + y.time;
    credit = x.credit + y.credit;
    credited = omega (
      int_laws,
      +ℤ_parts a.last_refill_ns (pos x.time),
      +ℤ_parts b.last_refill_ns (pos y.time),
      ap pos_part x.credited,
      ap neg_part x.credited,
      ap pos_part y.credited,
      ap neg_part y.credited,
    );
    worth = omega (arith, mul-add p x.time y.time, add-mul x.credit y.credit q, x.worth, y.worth);
    paid = omega (
      arith,
      x.paid,
      y.paid,
      +ℤ_parts b.tokens (pos (m * 1000000)),
      +ℤ_parts a.tokens (pos x.credit),
      +ℤ_parts c.tokens (pos (n * 1000000)),
      +ℤ_parts b.tokens (pos y.credit),
      +ℤ_parts c.tokens (pos ((m + n) * 1000000)),
      +ℤ_parts a.tokens (pos (x.credit + y.credit)),
    );
    same = y.same ∙ x.same;
    valid = y.valid;
  }

  pub counted-IsValid : (b : Bucket D) (c : Stats) → IsValid b → IsValid (record b { stats = c })
  counted-IsValid b c v = record {
    small = v.small;
    lower = v.lower;
    upper = v.upper;
    started = v.started;
  }

  pub restart-Paid :
      (p q n : ℕ) (b b' : Bucket D) (c : Stats)
      → Paid p q n (record b { stats = c }) b'
      → Paid p q n b b'
  restart-Paid p q n b b' c x = record {
    time = x.time;
    credit = x.credit;
    credited = x.credited;
    worth = x.worth;
    paid = x.paid;
    same = x.same;
    valid = x.valid;
  }

  pub Paid-amount : (p q m n : ℕ) (b b' : Bucket D) → m ≡ n → Paid p q m b b' → Paid p q n b b'
  Paid-amount p q m n b b' e x = rw (← e) x
