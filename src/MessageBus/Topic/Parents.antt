-- ===== src/MessageBus/Topic/Parents.antt =====
-- Whether '#' also stands for no level (`TopicMatcher::matches` of channel.cpp): behind '*' it does, behind
-- the same level written out it does not.
use ipb.Base.{ℕ, ◌≡◌, refl, ◌∙◌, Bool, true, false, List, [], ◌∷◌, ◌++◌, if◌then◌else◌}
use ipb.MessageBus.Topic.{same, matches}
use ipb.MessageBus.Topic.Levels.{word, star, hash, IsWord, IsName, matches-accepts}

-- For every topic `t` of one level without wildcards, "t/#" does not match "t", but the more general "*/#"
-- does.
pub parent_of_hash :
    (t : List ℕ)
    → IsWord t
    → IsName t
    → (matches (t ++ (47 ∷ 35 ∷ [])) t ≡ false) × (matches (42 ∷ 47 ∷ 35 ∷ []) t ≡ true)
parent_of_hash t plain name = (
  matches-accepts (word t ∷ hash ∷ []) (t ∷ []) (plain, tt) name ∙ both (same t t),
  matches-accepts (star ∷ hash ∷ []) (t ∷ []) tt name,
)
  where
    both : (b : Bool) → (if b then false else false) ≡ false
    both true = refl
    both false = refl
