-- ===== src/RuleEngine/Wildcard.antt =====
-- core/components/src/rule_engine/pattern_matcher.cpp: `WildcardMatcher::match_impl`. The pattern and the input
-- are the bytes up to the terminating zero.
pub mod Glob
pub mod Search
use ipb.Base.{
  ℕ, zero, suc, ◌+◌, ◌*◌, Bool, true, false, ◌==◌, ◌||◌, List, [], ◌∷◌, Option, none, some,
  if◌then◌else◌, length,
}

-- `star + 1` and `ss`.
pub record Star : Type 0 where
  pub after : List ℕ
  pub ss : List ℕ

-- The loop behind the end of the input: trailing stars are skipped.
abbrev pub only_stars : List ℕ → Bool
only_stars [] = true
only_stars (c ∷ pattern) = let rest = only_stars pattern in if c == 42 then rest else false

abbrev pub fits : ℕ → ℕ → Bool
fits c d = c == d || c == 63

-- The tests of one turn on the pattern's next byte; at its end there is the terminating zero.
abbrev pub literal : List ℕ → ℕ → Bool
literal [] d = false
literal (c ∷ pattern) d = fits c d

abbrev pub is_star : List ℕ → Bool
is_star [] = false
is_star (c ∷ pattern) = c == 42

abbrev pub tail : List ℕ → List ℕ
tail [] = []
tail (c ∷ pattern) = pattern

-- The loop of `match_impl`, with a bound on its turns.
unfoldable pub scan : ℕ → List ℕ → List ℕ → Option Star → Option Bool
scan zero pattern input star = none
scan (suc n) pattern [] star = some (only_stars pattern)
scan (suc n) pattern (d ∷ input) star = elim (literal pattern d) [
  | true ↦ scan n (tail pattern) input star
  | false ↦ elim (is_star pattern) [
    | true ↦
        scan n (tail pattern) (d ∷ input) (some (record { after = tail pattern; ss = d ∷ input }))
    | false ↦ elim star [
      | none ↦ some false
      | some s ↦ scan n s.after (tail s.ss) (some (record { after = s.after; ss = tail s.ss }))
    ]
  ]
]

-- Turns that are enough for these lengths of the pattern and the input.
abbrev pub turns : ℕ → ℕ → ℕ
turns p i = let k = p + i + 2 in (k * k + k) * k + k

-- `match_impl`
unfoldable pub match_impl : List ℕ → List ℕ → Option Bool
match_impl pattern input = scan (turns (length pattern) (length input)) pattern input none
