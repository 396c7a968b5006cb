-- ===== src/MessageBus/Examples.antt =====
-- Topics of channel.cpp, as bytes: "a", "b" and "cd".
use ipb.Base.{ℕ, ◌≡◌, refl, arith, true, List, [], ◌∷◌}
use ipb.MessageBus.Topic.{matches, is_valid, valid_from}
use ipb.MessageBus.Topic.Levels.{Level, word, star, hash, text, join, matches-accepts}

abbrev pattern_levels : List Level
pattern_levels = word (97 ∷ []) ∷ star ∷ hash ∷ []

abbrev topic_levels : List (List ℕ)
topic_levels = (97 ∷ []) ∷ (98 ∷ []) ∷ (99 ∷ 100 ∷ []) ∷ []

pattern-is_valid : is_valid (text pattern_levels) ≡ true
unfolding is_valid valid_from
pattern-is_valid = refl

matches-accepts_example : matches (text pattern_levels) (join topic_levels) ≡ true
matches-accepts_example =
    matches-accepts pattern_levels topic_levels (((omega arith, omega arith, omega arith), tt), tt)
      ((omega arith, tt), ((omega arith, tt), (omega arith, (omega arith, tt))))
