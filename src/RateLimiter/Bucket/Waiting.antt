-- ===== src/RateLimiter/Bucket/Waiting.antt =====
-- The waiting loop of `TokenBucket::acquire` (rate_limiter.hpp).
use ipb.Base.{ℕ, ◌≡◌, ◌≢◌, inl, inr, true, List, [], ◌∷◌, ◌++◌, none, arith, Bool-cases}
use ipb.Base.Int.{ℤ, ◌≤ℤ◌, leb_ℤ}
use ipb.Base.Double.{Doubles}
use ipb.RateLimiter.Bucket.{Bucket, Turn, acquire, try_acquire}

module _ (D : Doubles) where
  leb-true : (a b : ℤ) → a ≤ℤ b → leb_ℤ a b ≡ true
  leb-true a b h = ground arith

  acquire-last :
      (deadline : ℤ) (count : ℕ) (t : Turn) (turns : List Turn) (b : Bucket D)
      → deadline ≤ℤ t.now
      → acquire D deadline count (t ∷ turns) b ≢ none
  unfolding acquire
  acquire-last deadline count t turns b h = elim (Bool-cases (try_acquire D t.at count b).0) [
    | inl e ↦ rw e (λ n. cc)
    | inr e ↦ rw (e, leb-true deadline t.now h) (λ n. cc)
  ]

  acquire-more :
      (deadline : ℤ) (count : ℕ) (t : Turn) (turns : List Turn) (b : Bucket D)
      → ((b' : Bucket D) → acquire D deadline count turns b' ≢ none)
      → acquire D deadline count (t ∷ turns) b ≢ none
  unfolding acquire
  acquire-more deadline count t turns b h = elim (Bool-cases (try_acquire D t.at count b).0) [
    | inl e ↦ rw e (λ n. cc)
    | inr e ↦ elim (Bool-cases (leb_ℤ deadline t.now)) [
      | inl f ↦ rw (e, f) (λ n. cc)
      | inr f ↦ rw (e, f) (h _)
    ]
  ]

  -- `acquire` returns at the latest in the turn in which it reads a time at or past its deadline, whatever
  -- the turns before it were.
  pub acquire-ne-none :
      (deadline : ℤ) (count : ℕ) (front : List Turn) (t : Turn) (back : List Turn) (b : Bucket D)
      → deadline ≤ℤ t.now
      → acquire D deadline count (front ++ (t ∷ back)) b ≢ none
  acquire-ne-none deadline count [] t back b h = acquire-last deadline count t back b h
  acquire-ne-none deadline count (u ∷ front) t back b h =
      acquire-more deadline count u (front ++ (t ∷ back)) b
        (λ b'. acquire-ne-none deadline count front t back b' h)
