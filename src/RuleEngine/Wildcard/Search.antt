-- ===== src/RuleEngine/Wildcard/Search.antt =====
-- `WildcardMatcher::match_impl` (pattern_matcher.cpp), which returns to the last star alone, against the
-- meaning of patterns.
use native.Mathlib.Nat.{mul-le-mul_right}
use mathlib.Core.List.{append_assoc}
use mathlib.Core.Path.{subst}
use ipb.Base.{
  ℕ, zero, suc, ◌+◌, ◌*◌, ◌≤◌, ◌<◌, ◌≡◌, ◌≢◌, refl, sym, ap, ◌∙◌, inl, inr, Bool, true, false, ◌==◌,
  ◌||◌, List, [], ◌∷◌, ◌++◌, Option, none, some, length, length-append, ==_iff, arith, Bool-cases,
}
use ipb.RuleEngine.Wildcard.{Star, fits, tail, scan, turns, match_impl}
use ipb.RuleEngine.Wildcard.Glob.{
  glob, IsStarless, drop, glob-only_stars, glob_star, glob_star-drop, glob_star-passed,
}

-- What can still be matched from the last star.
abbrev saved : Option Star → Bool
saved none = false
saved (some s) = glob (42 ∷ s.after) (tail s.ss)

-- Since the last star a part of the pattern without stars has gone by, and as many bytes.
abbrev Follows : List ℕ → List ℕ → Option Star → Type 0
Follows pattern input none = Unit
Follows pattern input (some s) =
    (w : List ℕ) × (x : List ℕ) × IsStarless w
    × (length x ≡ length w)
    × (s.after ≡ w ++ pattern)
    × (s.ss ≡ x ++ input)

-- How much is left: the pattern behind the last star, `ss`, the pattern.
abbrev after_length : ℕ → Option Star → ℕ
after_length k none = k
after_length k (some s) = length s.after

abbrev ss_length : Option Star → ℕ
ss_length none = 0
ss_length (some s) = length s.ss

abbrev left : ℕ → List ℕ → Option Star → ℕ
left k pattern star = (after_length k star * k + ss_length star) * k + length pattern

abbrev IsSmall : ℕ → List ℕ → Option Star → Type 0
IsSmall k pattern none = Unit
IsSmall k pattern (some s) =
    (length s.after < k) × (length s.ss < k) × (length pattern ≤ length s.after)

abbrev IsClean : Option Star → Type 0
IsClean none = Unit
IsClean (some s) = IsStarless s.ss

lex : (k x y p q : ℕ) → x < y → p < k → x * k + p < y * k + q
lex k x y p q lt small =
    let m : (x + 1) * k ≤ y * k = mul-le-mul_right k (omega (arith, lt)) in omega (arith, m, small)

absorbs : (a b : Bool) → (b ≡ true → a ≡ true) → (a || b) ≡ a
absorbs true b h = refl
absorbs false true h = sym (h refl)
absorbs false false h = refl

-- From a star on, the saved place adds nothing.
saved-star :
    (pattern input : List ℕ) (star : Option Star)
    → Follows (42 ∷ pattern) input star
    → saved star ≡ true
    → glob (42 ∷ pattern) input ≡ true
saved-star pattern input none f e = cc
saved-star pattern input (some s) (w, x, starless, same, after, ss) e =
    let (k, h) = glob_star-passed w (42 ∷ pattern) x input starless same (
      ap (λ l. glob (42 ∷ l) (tail (x ++ input))) (sym after)
      ∙ ap (λ l. glob (42 ∷ s.after) (tail l)) (sym ss)
      ∙ e) in
    glob_star-drop pattern k input h

-- Nor does it at the end of the input.
saved_end :
    (pattern : List ℕ) (star : Option Star)
    → Follows pattern [] star
    → saved star ≡ true
    → glob pattern [] ≡ true
saved_end pattern none f e = cc
saved_end pattern (some s) (w, x, starless, same, after, ss) e =
    let (k, h) = glob_star-passed w pattern x [] starless same (
      ap (λ l. glob (42 ∷ l) (tail (x ++ []))) (sym after)
      ∙ ap (λ l. glob (42 ∷ s.after) (tail l)) (sym ss)
      ∙ e) in
    ap (λ l. glob pattern l) (sym (nothing k)) ∙ h
  where
    nothing : (k : ℕ) → drop k [] ≡ []
    nothing zero = refl
    nothing (suc k) = refl

IsStarless-append : (w v : List ℕ) → IsStarless w → IsStarless v → IsStarless (w ++ v)
IsStarless-append [] v a b = b
IsStarless-append (c ∷ w) v a b = (a.0, IsStarless-append w v a.1 b)

IsStarless-tail : (t : List ℕ) → IsStarless t → IsStarless (tail t)
IsStarless-tail [] a = tt
IsStarless-tail (c ∷ t) a = a.1

tail_shorter : (t : List ℕ) → 0 < length t → length (tail t) < length t
tail_shorter [] pos = absurd (omega arith)
tail_shorter (c ∷ t) pos = omega arith

-- A byte of the pattern and one of the input have gone by.
Follows-literal :
    (c d : ℕ) (pattern input : List ℕ) (star : Option Star)
    → c ≢ 42
    → Follows (c ∷ pattern) (d ∷ input) star
    → Follows pattern input star
Follows-literal c d pattern input none ne f = tt
Follows-literal c d pattern input (some s) ne (w, x, starless, same, after, ss) = (
  w ++ (c ∷ []),
  x ++ (d ∷ []),
  IsStarless-append w (c ∷ []) starless (ne, tt),
  length-append x (d ∷ []) ∙ ap (λ n. n + 1) same ∙ sym (length-append w (c ∷ [])),
  after ∙ sym (append_assoc w (c ∷ []) pattern),
  ss ∙ sym (append_assoc x (d ∷ []) input),
)

IsSmall-literal :
    (k c : ℕ) (pattern : List ℕ) (star : Option Star)
    → IsSmall k (c ∷ pattern) star
    → IsSmall k pattern star
IsSmall-literal k c pattern none f = tt
IsSmall-literal k c pattern (some s) f = (f.0, f.1, omega (arith, f.2))

left-star :
    (k c d : ℕ) (pattern input : List ℕ) (star : Option Star)
    → IsSmall k (c ∷ pattern) star
    → length (c ∷ pattern) < k
    → length (d ∷ input) < k
    → left k pattern (some (record { after = pattern; ss = d ∷ input })) < left k (c ∷ pattern) star
left-star k c d pattern input none f p i =
    lex k (length pattern * k + length (d ∷ input)) (k * k + 0) (length pattern)
      (length (c ∷ pattern)) (lex k (length pattern) k (length (d ∷ input)) 0 (omega (arith, p)) i)
      (omega (arith, p))
left-star k c d pattern input (some s) f p i =
    lex k (length pattern * k + length (d ∷ input)) (length s.after * k + length s.ss)
      (length pattern) (length (c ∷ pattern))
      (lex k (length pattern) (length s.after) (length (d ∷ input)) (length s.ss)
        (omega (arith, f.2)) i)
      (omega (arith, p))

left-back :
    (k : ℕ) (pattern : List ℕ) (s : Star)
    → IsSmall k pattern (some s)
    → 0 < length s.ss
    → left k s.after (some (record { after = s.after; ss = tail s.ss })) < left k pattern (some s)
left-back k pattern s f pos =
    lex k (length s.after * k + length (tail s.ss)) (length s.after * k + length s.ss)
      (length s.after) (length pattern) (omega (arith, tail_shorter s.ss pos)) f.0

glob-literal :
    (c d : ℕ) (pattern input : List ℕ)
    → c ≢ 42
    → fits c d ≡ true
    → glob (c ∷ pattern) (d ∷ input) ≡ glob pattern input
unfolding glob
glob-literal c d pattern input ne f =
    let other : (c == 42) ≡ false = ground (arith, ne) in rw (other, f) refl

glob_nil : (d : ℕ) (input : List ℕ) → glob [] (d ∷ input) ≡ false
unfolding glob
glob_nil d input = refl

glob-mismatch :
    (c d : ℕ) (pattern input : List ℕ)
    → (c == 42) ≡ false
    → fits c d ≡ false
    → glob (c ∷ pattern) (d ∷ input) ≡ false
unfolding glob
glob-mismatch c d pattern input ne f = rw (ne, f) refl

fits-ne : (c d : ℕ) → d ≢ 42 → fits c d ≡ true → c ≢ 42
fits-ne c d ne f = ground (arith, ne, f)

ss-length :
    (pattern : List ℕ) (d : ℕ) (input : List ℕ) (s : Star)
    → Follows pattern (d ∷ input) (some s)
    → 0 < length s.ss
ss-length pattern d input s (w, x, starless, same, after, ss) =
    let e = length-append x (d ∷ input) in omega (arith, e, ap length ss)

module _ (k : ℕ) where
  -- With enough turns the loop finds what the pattern stands for, or what the last star still allows.
  abbrev Finds : ℕ → Type 0
  Finds n =
      (pattern input : List ℕ) (star : Option Star)
      → IsStarless input
      → IsClean star
      → Follows pattern input star
      → IsSmall k pattern star
      → length pattern < k
      → length input < k
      → left k pattern star < n
      → scan n pattern input star ≡ some (glob pattern input || saved star)

  -- The return to the last star.
  back :
      (n : ℕ)
      → Finds n
      → (pattern : List ℕ) (d : ℕ) (input : List ℕ) (s : Star) → IsStarless s.ss
      → Follows pattern (d ∷ input) (some s)
      → IsSmall k pattern (some s)
      → left k pattern (some s) < suc n
      → scan n s.after (tail s.ss) (some (record { after = s.after; ss = tail s.ss }))
        ≡ some (saved (some s))
  back n finds pattern d input s clean f small enough =
      let pos = ss-length pattern d input s f in
      let shorter = tail_shorter s.ss pos in
      let fewer = left-back k pattern s small pos in
      finds s.after (tail s.ss) (some (record { after = s.after; ss = tail s.ss }))
        (IsStarless-tail s.ss clean) (IsStarless-tail s.ss clean) ([], [], tt, refl, refl, refl)
        (small.0, omega (arith, shorter, small.1), omega arith) small.0
        (omega (arith, shorter, small.1)) (omega (arith, fewer, enough))
      ∙ ap (λ b. some b) (sym (glob_star s.after (tail s.ss)))

  fall_back :
      (n : ℕ)
      → Finds n
      → (pattern : List ℕ) (d : ℕ) (input : List ℕ) (star : Option Star) → IsClean star
      → Follows pattern (d ∷ input) star
      → IsSmall k pattern star
      → left k pattern star < suc n
      → elim star [
        | none ↦ some false
        | some s ↦ scan n s.after (tail s.ss) (some (record { after = s.after; ss = tail s.ss }))
      ]
        ≡ some (saved star)
  fall_back n finds pattern d input none clean f small enough = refl
  fall_back n finds pattern d input (some s) clean f small enough =
      back n finds pattern d input s clean f small enough

  -- A star of the pattern takes the place of the last one.
  at_star :
      (n : ℕ)
      → Finds n
      → (c d : ℕ) (pattern input : List ℕ) (star : Option Star) → c ≡ 42
      → IsStarless (d ∷ input)
      → Follows (c ∷ pattern) (d ∷ input) star
      → IsSmall k (c ∷ pattern) star
      → length (c ∷ pattern) < k
      → length (d ∷ input) < k
      → left k (c ∷ pattern) star < suc n
      → scan n pattern (d ∷ input) (some (record { after = pattern; ss = d ∷ input }))
        ≡ some (glob (c ∷ pattern) (d ∷ input) || saved star)
  at_star n finds c d pattern input star e a f small p i enough =
      let fewer = left-star k c d pattern input star small p i in
      let kept = absorbs (glob (42 ∷ pattern) (d ∷ input)) (saved star) (
        saved-star pattern (d ∷ input) star
          (subst (λ x. Follows (x ∷ pattern) (d ∷ input) star) e f)) in
      finds pattern (d ∷ input) (some (record { after = pattern; ss = d ∷ input })) a a
        ([], [], tt, refl, refl, refl) (omega (arith, p), i, omega arith) (omega (arith, p)) i
        (omega (arith, fewer, enough))
      ∙ ap (λ b. some b) (sym (glob_star pattern (d ∷ input)) ∙ sym kept)
      ∙ ap (λ x. some (glob (x ∷ pattern) (d ∷ input) || saved star)) (sym e)

  scan-Finds : (n : ℕ) → Finds n
  unfolding scan
  scan-Finds zero pattern input star a b f small p i enough = absurd (omega arith)
  scan-Finds (suc n) pattern [] star a b f small p i enough =
      ap (λ x. some x)
        (sym (
          absorbs (glob pattern []) (saved star) (saved_end pattern star f)
          ∙ glob-only_stars pattern))
  scan-Finds (suc n) [] (d ∷ input) none a b f small p i enough =
      ap (λ g. some (g || false)) (sym (glob_nil d input))
  scan-Finds (suc n) [] (d ∷ input) (some s) a b f small p i enough =
      back n (scan-Finds n) [] d input s b f small enough
      ∙ ap (λ g. some (g || saved (some s))) (sym (glob_nil d input))
  scan-Finds (suc n) (c ∷ pattern) (d ∷ input) star a b f small p i enough =
      elim (Bool-cases (fits c d)) [
        | inl fit ↦
            let ne = fits-ne c d a.0 fit in
            rw (fit, scan, glob-literal c d pattern input ne fit)
              (scan-Finds n pattern input star a.1 b (Follows-literal c d pattern input star ne f)
                (IsSmall-literal k c pattern star small) (omega (arith, p)) (omega (arith, i))
                (omega (arith, enough)))
        | inr other ↦ elim (Bool-cases (c == 42)) [
          | inl starred ↦
              rw (other, starred, scan)
                (at_star n (scan-Finds n) c d pattern input star ((==_iff c 42).0 starred) a f small
                  p i enough)
          | inr plain ↦
              rw (other, plain, scan, glob-mismatch c d pattern input plain other)
                (fall_back n (scan-Finds n) (c ∷ pattern) d input star b f small enough)
        ]
      ]

-- For every pattern, and every input without a '*', `match_impl` ends and answers whether the pattern
-- stands for the input.
pub match_impl-glob :
    (pattern input : List ℕ)
    → IsStarless input
    → match_impl pattern input ≡ some (glob pattern input)
unfolding match_impl
match_impl-glob pattern input a =
    let k = length pattern + length input + 2 in
    scan-Finds k (turns (length pattern) (length input)) pattern input none a tt tt tt (omega arith)
      (omega arith) (omega arith)
    ∙ ap (λ b. some b) (absorbs (glob pattern input) false (λ h. cc))

-- The pattern "*" does not match an input that begins with '*' and goes on: the star of the pattern is
-- taken as that byte.
pub match_impl_star : (d : ℕ) (input : List ℕ) → match_impl (42 ∷ []) (42 ∷ d ∷ input) ≡ some false
unfolding match_impl scan
match_impl_star d input =
    let k = 1 + length (42 ∷ d ∷ input) + 2 in
    let e : turns 1 (length (42 ∷ d ∷ input)) ≡ suc (suc ((k * k + k) * k + length input + 3)) =
      omega arith in
    ap (λ n. scan n (42 ∷ []) (42 ∷ d ∷ input) none) e
