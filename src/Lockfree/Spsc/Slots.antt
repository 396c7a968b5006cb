-- ===== src/Lockfree/Spsc/Slots.antt =====
-- The cells of `SPSCQueue` (lockfree_queue.hpp): which positions share a cell, and what a write changes.
use native.Mathlib.Nat.{
  mod-mod_of_dvd, mod-add-mod, mod-eq_of_lt, mod-eq-sub-mod, mod-lt, add-mod_right,
}
use Prim.Native.Nat.{◌∣◌}
use ipb.Base
use ipb.Base.{
  ℕ, zero, suc, ◌+◌, ◌-◌, ◌*◌, ◌%◌, ◌^◌, ◌≤◌, ◌<◌, ◌≡◌, ◌≢◌, refl, sym, ap, ◌∙◌, inl, inr, Bool,
  true, false, List, [], ◌∷◌, ◌++◌, if◌then◌else◌, ◌==◌, length, arith, Bool-cases,
}
use ipb.Lockfree.Spsc.{update}

-- Positions less than a capacity apart have different cells.
pub cells-ne : (c a d : ℕ) → 0 < d → d < c → a % c ≢ (a + d) % c
cells-ne c a d pos small e =
    let r : a % c < c = mod-lt a (omega arith) in
    let s : (a % c + d) % c ≡ (a + d) % c = mod-add-mod a c d in
    elim (Bool-cases (Base.ltb (a % c + d) c)) [
      | inl h ↦
          let k : (a % c + d) % c ≡ a % c + d = mod-eq_of_lt (ground arith) in absurd (omega arith)
      | inr h ↦
          let over : c ≤ a % c + d = ground arith in
          let k : (a % c + d) % c ≡ (a % c + d - c) % c = mod-eq-sub-mod over in
          let l : (a % c + d - c) % c ≡ a % c + d - c = mod-eq_of_lt (omega arith) in
          absurd (omega arith)
    ]

module _ (capacity : ℕ) where
  -- The cells from position `t` on hold these values, published.
  abbrev pub Filled : {A : Type 0} → (ℕ → ℕ) → (ℕ → A) → ℕ → List A → Type 0
  Filled sequence contents t [] = Unit
  Filled sequence contents t (v ∷ values) =
      (sequence (t % capacity) ≡ (t + 1) % 2 ^ 64)
      × (contents (t % capacity) ≡ v)
      × Filled sequence contents (t + 1) values

  -- The `n` cells from position `h` on are free for that position.
  abbrev pub Free : (ℕ → ℕ) → ℕ → ℕ → Type 0
  Free sequence h zero = Unit
  Free sequence h (suc n) = (sequence (h % capacity) ≡ h % 2 ^ 64) × Free sequence (h + 1) n

  other :
      {B : Type 0} (f : ℕ → B) (i j : ℕ) (v : B)
      → i % capacity ≢ j % capacity
      → update f (i % capacity) v (j % capacity) ≡ f (j % capacity)
  other f i j v h =
      let ne : (j % capacity == i % capacity) ≡ false = ground (arith, h) in rw ne refl

  -- A write to the cell of a position leaves the cells of the other positions in a capacity alone.
  update-ahead :
      {B : Type 0} (f : ℕ → B) (i j : ℕ) (v : B)
      → i < j
      → j < i + capacity
      → update f (i % capacity) v (j % capacity) ≡ f (j % capacity)
  update-ahead f i j v lt near =
      let e : i + (j - i) ≡ j = omega arith in
      other f i j v (λ h.
        cells-ne capacity i (j - i) (omega arith) (omega arith)
          (h ∙ ap (λ k. k % capacity) (sym e)))

  update-behind :
      {B : Type 0} (f : ℕ → B) (i j : ℕ) (v : B)
      → j < i
      → i < j + capacity
      → update f (i % capacity) v (j % capacity) ≡ f (j % capacity)
  update-behind f i j v lt near =
      let e : j + (i - j) ≡ i = omega arith in
      other f i j v (λ h.
        cells-ne capacity j (i - j) (omega arith) (omega arith)
          (sym h ∙ ap (λ k. k % capacity) (sym e)))

  pub update_self : {B : Type 0} (f : ℕ → B) (i : ℕ) (v : B) → update f i v i ≡ v
  update_self f i v = let e : (i == i) ≡ true = ground arith in rw e refl

  -- A write behind the last value.
  pub Filled-write :
      {A : Type 0} (f : ℕ → ℕ) (g : ℕ → A) (t h w : ℕ) (values : List A)
      → t + length values ≤ h
      → h < t + capacity
      → Filled f g t values
      → Filled (update f (h % capacity) w) g t values
  Filled-write f g t h w [] le near c = tt
  Filled-write f g t h w (v ∷ values) le near c = (
    update-behind f h t w (omega arith) near ∙ c.0,
    c.1,
    Filled-write f g (t + 1) h w values (omega arith) (omega arith) c.2,
  )

  pub Filled-store :
      {A : Type 0} (f : ℕ → ℕ) (g : ℕ → A) (t h : ℕ) (w : A) (values : List A)
      → t + length values ≤ h
      → h < t + capacity
      → Filled f g t values
      → Filled f (update g (h % capacity) w) t values
  Filled-store f g t h w [] le near c = tt
  Filled-store f g t h w (v ∷ values) le near c = (
    c.0,
    update-behind g h t w (omega arith) near ∙ c.1,
    Filled-store f g (t + 1) h w values (omega arith) (omega arith) c.2,
  )

  -- A write to a position in front of them.
  pub Filled-release :
      {A : Type 0} (f : ℕ → ℕ) (g : ℕ → A) (t p w : ℕ) (values : List A)
      → p < t
      → t + length values ≤ p + capacity
      → Filled f g t values
      → Filled (update f (p % capacity) w) g t values
  Filled-release f g t p w [] lt near c = tt
  Filled-release f g t p w (v ∷ values) lt near c = (
    update-ahead f p t w lt (omega arith) ∙ c.0,
    c.1,
    Filled-release f g (t + 1) p w values (omega arith) (omega arith) c.2,
  )

  pub Free-write :
      (f : ℕ → ℕ) (h p w n : ℕ)
      → p < h
      → h + n ≤ p + capacity
      → Free f h n
      → Free (update f (p % capacity) w) h n
  Free-write f h p w zero lt near c = tt
  Free-write f h p w (suc n) lt near c = (
    update-ahead f p h w lt (omega arith) ∙ c.0,
    Free-write f (h + 1) p w n (omega arith) (omega arith) c.1,
  )

  -- One more value, one more free cell.
  pub Filled-append :
      {A : Type 0} (f : ℕ → ℕ) (g : ℕ → A) (t h : ℕ) (v : A) (values : List A)
      → t + length values ≡ h
      → Filled f g t values
      → f (h % capacity) ≡ (h + 1) % 2 ^ 64
      → g (h % capacity) ≡ v
      → Filled f g t (values ++ (v ∷ []))
  Filled-append f g t h v [] e c p q = let k : t ≡ h = omega arith in rw k (p, q, tt)
  Filled-append f g t h v (u ∷ values) e c p q =
      (c.0, c.1, Filled-append f g (t + 1) h v values (omega arith) c.2 p q)

  pub Free-append :
      (f : ℕ → ℕ) (h n p : ℕ)
      → h + n ≡ p
      → Free f h n
      → f (p % capacity) ≡ p % 2 ^ 64
      → Free f h (suc n)
  Free-append f h zero p e c q = let k : h ≡ p = omega arith in rw k (q, tt)
  Free-append f h (suc n) p e c q = (c.0, Free-append f (h + 1) n p (omega arith) c.1 q)

  -- A position that has wrapped has the same cell.
  pub wrapped-cell : (p : ℕ) → capacity ∣ 2 ^ 64 → p % 2 ^ 64 % capacity ≡ p % capacity
  wrapped-cell p h = mod-mod_of_dvd capacity p h

  -- A position one capacity later has the same cell.
  pub later-cell : (p : ℕ) → (p + capacity) % capacity ≡ p % capacity
  later-cell p = add-mod_right p capacity
