-- ===== src/MessageBus/Topic/Validity.antt =====
-- `TopicMatcher::is_valid` (channel.cpp) on the patterns that matching level by level is stated for.
use ipb.Base.{ℕ, ◌≡◌, refl, ◌∙◌, Bool, true, false, List, [], ◌∷◌, ◌++◌, arith}
use ipb.MessageBus.Topic.{valid_from, is_valid}
use ipb.MessageBus.Topic.Levels.{Level, word, star, hash, text, IsPlain, IsPattern}

valid_from-IsPlain : (separator : Bool) (w : List ℕ) → IsPlain w → valid_from separator w ≡ true
unfolding valid_from
valid_from-IsPlain separator [] p = refl
valid_from-IsPlain separator (c ∷ w) p = ground (arith, p.0, valid_from-IsPlain false w p.1)

valid_from_word :
    (w rest : List ℕ) → IsPlain w → valid_from false (w ++ (47 ∷ rest)) ≡ valid_from true rest
unfolding valid_from
valid_from_word [] rest p = refl
valid_from_word (c ∷ w) rest p = ground (arith, p.0, valid_from_word w rest p.1)

valid_from_first :
    (c : ℕ) (w rest : List ℕ)
    → IsPlain (c ∷ w)
    → valid_from true ((c ∷ w) ++ (47 ∷ rest)) ≡ valid_from true rest
unfolding valid_from
valid_from_first c w rest p = ground (arith, p.0, valid_from_word w rest p.1)

levels-valid_from : (levels : List Level) → IsPattern levels → valid_from true (text levels) ≡ true
unfolding valid_from
levels-valid_from [] p = absurd p
levels-valid_from (word [] ∷ []) p = absurd p
levels-valid_from (word (c ∷ w) ∷ []) p = valid_from-IsPlain true (c ∷ w) p
levels-valid_from (word [] ∷ m ∷ levels) p = absurd p.0
levels-valid_from (word (c ∷ w) ∷ m ∷ levels) p =
    valid_from_first c w (text (m ∷ levels)) p.0 ∙ levels-valid_from (m ∷ levels) p.1
levels-valid_from (star ∷ []) p = refl
levels-valid_from (star ∷ m ∷ levels) p = levels-valid_from (m ∷ levels) p
levels-valid_from (hash ∷ []) p = refl
levels-valid_from (hash ∷ m ∷ levels) p = absurd p

-- The patterns of `matches-accepts` are valid.
text-is_valid : (levels : List Level) → IsPattern levels → is_valid (text levels) ≡ true
unfolding is_valid valid_from
text-is_valid [] p = absurd p
text-is_valid (word [] ∷ []) p = absurd p
text-is_valid (word (c ∷ w) ∷ []) p = levels-valid_from (word (c ∷ w) ∷ []) p
text-is_valid (word [] ∷ m ∷ levels) p = absurd p.0
text-is_valid (word (c ∷ w) ∷ m ∷ levels) p = levels-valid_from (word (c ∷ w) ∷ m ∷ levels) p
text-is_valid (star ∷ []) p = refl
text-is_valid (star ∷ m ∷ levels) p = levels-valid_from (star ∷ m ∷ levels) p
text-is_valid (hash ∷ []) p = refl
text-is_valid (hash ∷ m ∷ levels) p = absurd p
