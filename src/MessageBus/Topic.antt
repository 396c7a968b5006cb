-- ===== src/MessageBus/Topic.antt =====
-- core/components/src/message_bus/channel.cpp: `TopicMatcher`, on texts as lists of bytes.
-- The indices `pi` and `ti` are what is left of the pattern and of the topic.
pub mod Levels
pub mod Parents
pub mod Validity
use ipb.Base.{ℕ, Bool, true, false, ◌==◌, ◌||◌, not, List, [], ◌∷◌, if◌then◌else◌}

-- `pattern == topic` on string views.
abbrev pub same : List ℕ → List ℕ → Bool
same [] [] = true
same [] (d ∷ t) = false
same (c ∷ p) [] = false
same (c ∷ p) (d ∷ t) = let rest = same p t in if c == d then rest else false

abbrev pub is_empty : List ℕ → Bool
is_empty [] = true
is_empty (c ∷ t) = false

abbrev pub slash : ℕ
slash = 47

-- `has_wildcards`: a byte is '*' or '#'.
unfoldable pub has_wildcards : List ℕ → Bool
has_wildcards [] = false
has_wildcards (c ∷ p) = let rest = has_wildcards p in if c == 42 || c == 35 then true else rest

-- The loop under '*': to the next separator.
abbrev pub skip : List ℕ → List ℕ
skip [] = []
skip (d ∷ t) = let rest = skip t in if d == 47 then d ∷ t else rest

-- The loop of `matches` with the tests after it; `true` stands for the place behind a '*'.
unfoldable pub scan : Bool → List ℕ → List ℕ → Bool
scan false [] topic = is_empty topic
scan false (c ∷ pattern) [] = c == 35
scan false (c ∷ pattern) (d ∷ topic) =
    let behind = scan true pattern (skip (d ∷ topic)) in
    let next = scan false pattern topic in
    if c == 35 then true else if c == 42 then behind else if c == d then next else false
scan true [] topic = is_empty topic
scan true (c ∷ pattern) [] = let next = scan false pattern [] in if c == 47 then next else false
scan true (c ∷ pattern) (d ∷ topic) =
    let next = scan false pattern topic in
    if c == 47 then (if d == 47 then next else false) else false

-- `matches`
unfoldable pub matches : List ℕ → List ℕ → Bool
matches pattern topic =
    if same pattern topic
    then true
    else if not (has_wildcards pattern)
    then false
    else scan false pattern topic

-- `is_valid`: the loop, with `prev_was_separator`.
unfoldable pub valid_from : Bool → List ℕ → Bool
valid_from separator [] = true
valid_from separator (c ∷ t) =
    let next = valid_from false t in
    let level = valid_from true t in
    if c == 47
    then (if separator then false else level)
    else if c == 35
    then (if separator then (if is_empty t then next else false) else false)
    else if c == 42
    then (if separator then (if starts_level t then next else false) else false)
    else next
  where
    starts_level : List ℕ → Bool
    starts_level [] = true
    starts_level (e ∷ t) = e == 47

unfoldable pub is_valid : List ℕ → Bool
is_valid text = if is_empty text then false else valid_from true text
