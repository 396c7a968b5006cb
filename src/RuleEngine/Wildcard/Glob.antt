-- ===== src/RuleEngine/Wildcard/Glob.antt =====
-- What a pattern with '?' and '*' stands for, by which `WildcardMatcher` (pattern_matcher.cpp) is judged.
use ipb.Base.{
  ℕ, zero, suc, ◌≡◌, ◌≢◌, refl, sym, ap, ◌∙◌, Bool, true, false, ◌==◌, ◌||◌, List, [], ◌∷◌, ◌++◌,
  if◌then◌else◌, length, arith, Bool-cases, inl, inr,
}
use ipb.RuleEngine.Wildcard.{fits, only_stars, tail}

-- '?' stands for one byte, '*' for any number of bytes.
unfoldable pub glob : List ℕ → List ℕ → Bool
glob [] [] = true
glob [] (d ∷ t) = false
glob (c ∷ p) [] = let rest = glob p [] in if c == 42 then rest else false
glob (c ∷ p) (d ∷ t) =
    let none_taken = glob p (d ∷ t) in
    let one_taken = glob (c ∷ p) t in
    let next = glob p t in
    if c == 42 then none_taken || one_taken else if fits c d then next else false

abbrev pub drop : ℕ → List ℕ → List ℕ
drop zero t = t
drop (suc n) [] = []
drop (suc n) (d ∷ t) = drop n t

-- No '*'.
abbrev pub IsStarless : List ℕ → Type 0
IsStarless [] = Unit
IsStarless (c ∷ w) = (c ≢ 42) × IsStarless w

pub glob-only_stars : (p : List ℕ) → glob p [] ≡ only_stars p
unfolding glob
glob-only_stars [] = refl
glob-only_stars (c ∷ p) = ap (λ b. if c == 42 then b else false) (glob-only_stars p)

-- A star takes nothing, or a byte.
pub glob_star : (p t : List ℕ) → glob (42 ∷ p) t ≡ (glob p t || glob (42 ∷ p) (tail t))
unfolding glob
glob_star p [] = twice (glob p [])
  where
    twice : (b : Bool) → b ≡ (b || b)
    twice true = refl
    twice false = refl
glob_star p (d ∷ t) = refl

or_right : (a b : Bool) → b ≡ true → (a || b) ≡ true
or_right true b e = refl
or_right false b e = e

-- A star also takes what is put in front.
pub glob_star-drop :
    (p : List ℕ) (k : ℕ) (t : List ℕ) → glob (42 ∷ p) (drop k t) ≡ true → glob (42 ∷ p) t ≡ true
unfolding glob
glob_star-drop p zero t e = e
glob_star-drop p (suc k) [] e = e
glob_star-drop p (suc k) (d ∷ t) e =
    or_right (glob p (d ∷ t)) (glob (42 ∷ p) t) (glob_star-drop p k t e)

-- What a star leaves.
glob_star-rest : (p t : List ℕ) → glob (42 ∷ p) t ≡ true → (k : ℕ) × (glob p (drop k t) ≡ true)
unfolding glob
glob_star-rest p [] e = (0, e)
glob_star-rest p (d ∷ t) e = elim (Bool-cases (glob p (d ∷ t))) [
  | inl now ↦ (0, now)
  | inr later ↦ let (k, h) = glob_star-rest p t (rw later at e) in (suc k, h)
]

-- A part without stars takes as many bytes as it has.
glob-IsStarless :
    (w q t : List ℕ) → IsStarless w → glob (w ++ q) t ≡ true → glob q (drop (length w) t) ≡ true
unfolding glob
glob-IsStarless [] q t s e = e
glob-IsStarless (c ∷ w) q [] s e = ground (arith, s.0, e)
glob-IsStarless (c ∷ w) q (d ∷ t) s e = ground (arith, s.0, e, glob-IsStarless w q t s.1)

drop-nil : (k : ℕ) → drop k [] ≡ []
drop-nil zero = refl
drop-nil (suc k) = refl

drop-tail : (k : ℕ) (t : List ℕ) → drop k (tail t) ≡ drop (suc k) t
drop-tail k [] = drop-nil k
drop-tail k (d ∷ t) = refl

tail-drop : (a : ℕ) (t : List ℕ) → drop a (tail t) ≡ tail (drop a t)
tail-drop zero t = refl
tail-drop (suc a) [] = refl
tail-drop (suc a) (d ∷ t) = sym (drop-tail a t) ∙ tail-drop a t

drop-drop : (a b : ℕ) (t : List ℕ) → drop a (drop b t) ≡ drop b (drop a t)
drop-drop a zero t = refl
drop-drop a (suc b) t =
    ap (drop a) (sym (drop-tail b t))
    ∙ drop-drop a b (tail t)
    ∙ ap (drop b) (tail-drop a t)
    ∙ drop-tail b (drop a t)

drop-append : (x i : List ℕ) → drop (length x) (x ++ i) ≡ i
drop-append [] i = refl
drop-append (c ∷ x) i = drop-append x i

-- A star in front of a part without stars of which the bytes have gone by.
pub glob_star-passed :
    (w q x i : List ℕ)
    → IsStarless w
    → length x ≡ length w
    → glob (42 ∷ (w ++ q)) (tail (x ++ i)) ≡ true
    → (k : ℕ) × (glob q (drop k i) ≡ true)
glob_star-passed w q x i s same e =
    let (k, h) = glob_star-rest (w ++ q) (tail (x ++ i)) e in
    let g = glob-IsStarless w q (drop k (tail (x ++ i))) s h in
    let moved : drop (length w) (drop k (tail (x ++ i))) ≡ drop (suc k) i =
      ap (drop (length w)) (drop-tail k (x ++ i))
      ∙ drop-drop (length w) (suc k) (x ++ i)
      ∙ ap (λ n. drop (suc k) (drop n (x ++ i))) (sym same)
      ∙ ap (drop (suc k)) (drop-append x i) in
    (suc k, ap (λ u. glob q u) (sym moved) ∙ g)
