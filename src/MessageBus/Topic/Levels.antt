-- ===== src/MessageBus/Topic/Levels.antt =====
-- `TopicMatcher::matches` (channel.cpp) against matching level by level.
use ipb.Base.{
  ℕ, ◌≡◌, ◌≢◌, refl, sym, ap, ◌∙◌, inl, inr, Bool, true, false, List, [], ◌∷◌, ◌++◌, if◌then◌else◌,
  arith, Bool-cases,
}
use ipb.MessageBus.Topic.{same, has_wildcards, skip, scan, matches}

-- A level of a pattern.
pub data Level : Type 0 where
  word : List ℕ → Level
  star : Level
  hash : Level

abbrev pub letters : Level → List ℕ
letters (word w) = w
letters star = 42 ∷ []
letters hash = 35 ∷ []

-- Levels joined by '/'.
abbrev pub join : List (List ℕ) → List ℕ
join [] = []
join (t ∷ []) = t
join (t ∷ u ∷ rest) = t ++ (47 ∷ join (u ∷ rest))

abbrev pub text : List Level → List ℕ
text [] = []
text (l ∷ []) = letters l
text (l ∷ m ∷ rest) = letters l ++ (47 ∷ text (m ∷ rest))

-- No '/'.
abbrev pub IsOneLevel : List ℕ → Type 0
IsOneLevel [] = Unit
IsOneLevel (c ∷ w) = (c ≢ 47) × IsOneLevel w

-- No '/', '*' or '#'.
abbrev pub IsPlain : List ℕ → Type 0
IsPlain [] = Unit
IsPlain (c ∷ w) = ((c ≢ 47) × (c ≢ 42) × (c ≢ 35)) × IsPlain w

abbrev pub IsWord : List ℕ → Type 0
IsWord [] = ⊥
IsWord (c ∷ w) = IsPlain (c ∷ w)

-- One level or more, the words not empty, '#' as the last level alone.
abbrev pub IsPattern : List Level → Type 0
IsPattern [] = ⊥
IsPattern (word w ∷ []) = IsWord w
IsPattern (star ∷ []) = Unit
IsPattern (hash ∷ []) = Unit
IsPattern (word w ∷ m ∷ rest) = IsWord w × IsPattern (m ∷ rest)
IsPattern (star ∷ m ∷ rest) = IsPattern (m ∷ rest)
IsPattern (hash ∷ m ∷ rest) = ⊥

abbrev pub IsName : List ℕ → Type 0
IsName [] = ⊥
IsName (c ∷ w) = IsOneLevel (c ∷ w)

abbrev pub IsTopic : List (List ℕ) → Type 0
IsTopic [] = ⊥
IsTopic (t ∷ []) = IsName t
IsTopic (t ∷ u ∷ rest) = IsName t × IsTopic (u ∷ rest)

-- Level by level: a word stands for itself, '*' for one level, '#' for one level or more; a '#' directly
-- behind a '*' also stands for none. `behind` tells whether the level before was a '*'.
abbrev pub accepts : Bool → List Level → List (List ℕ) → Bool
accepts behind [] [] = true
accepts behind [] (t ∷ rest) = false
accepts behind (word w ∷ levels) [] = false
accepts behind (star ∷ levels) [] = false
accepts behind (hash ∷ levels) [] = behind
accepts behind (word w ∷ levels) (t ∷ rest) =
    let next = accepts false levels rest in if same w t then next else false
accepts behind (star ∷ levels) (t ∷ rest) = accepts true levels rest
accepts behind (hash ∷ levels) (t ∷ rest) = true

-- A word of the pattern against the whole rest of a topic.
scan-IsPlain : (w t : List ℕ) → IsPlain w → scan false w t ≡ same w t
unfolding scan
scan-IsPlain [] [] p = refl
scan-IsPlain [] (d ∷ t) p = refl
scan-IsPlain (c ∷ w) [] p = ground (arith, p.0)
scan-IsPlain (c ∷ w) (d ∷ t) p = ground (arith, p.0, scan-IsPlain w t p.1)

same-longer : (w t rest : List ℕ) → IsPlain w → same w (t ++ (47 ∷ rest)) ≡ false
same-longer [] [] rest p = refl
same-longer [] (d ∷ t) rest p = refl
same-longer (c ∷ w) [] rest p = ground (arith, p.0)
same-longer (c ∷ w) (d ∷ t) rest p = ground (arith, same-longer w t rest p.1)

-- A word followed by a separator.
scan-word_last :
    (w pattern t : List ℕ) → IsPlain w → IsOneLevel t → scan false (w ++ (47 ∷ pattern)) t ≡ false
unfolding scan
scan-word_last [] pattern [] p o = refl
scan-word_last [] pattern (d ∷ t) p o = ground (arith, o.0)
scan-word_last (c ∷ w) pattern [] p o = ground (arith, p.0)
scan-word_last (c ∷ w) pattern (d ∷ t) p o = ground (arith, p.0, scan-word_last w pattern t p.1 o.1)

scan-word :
    (w pattern t topic : List ℕ)
    → IsPlain w
    → IsOneLevel t
    → scan false (w ++ (47 ∷ pattern)) (t ++ (47 ∷ topic))
      ≡ (if same w t then scan false pattern topic else false)
unfolding scan
scan-word [] pattern [] topic p o = refl
scan-word [] pattern (d ∷ t) topic p o = ground (arith, o.0)
scan-word (c ∷ w) pattern [] topic p o = ground (arith, p.0)
scan-word (c ∷ w) pattern (d ∷ t) topic p o =
    ground (arith, p.0, scan-word w pattern t topic p.1 o.1)

skip-IsOneLevel : (t : List ℕ) → IsOneLevel t → skip t ≡ []
skip-IsOneLevel [] o = refl
skip-IsOneLevel (d ∷ t) o = ground (arith, o.0, skip-IsOneLevel t o.1)

skip_level : (t topic : List ℕ) → IsOneLevel t → skip (t ++ (47 ∷ topic)) ≡ 47 ∷ topic
skip_level [] topic o = refl
skip_level (d ∷ t) topic o = ground (arith, o.0, skip_level t topic o.1)

IsWord-IsPlain : (w : List ℕ) → IsWord w → IsPlain w
IsWord-IsPlain [] p = absurd p
IsWord-IsPlain (c ∷ w) p = p

IsName-IsOneLevel : (t : List ℕ) → IsName t → IsOneLevel t
IsName-IsOneLevel [] p = absurd p
IsName-IsOneLevel (c ∷ w) p = p

-- A '*' in front of a name.
scan-star : (pattern t : List ℕ) → IsName t → scan false (42 ∷ pattern) t ≡ scan true pattern []
unfolding scan
scan-star pattern [] o = absurd o
scan-star pattern (d ∷ t) o = ap (λ rest. scan true pattern rest) (skip-IsOneLevel (d ∷ t) o)

scan-star_level :
    (pattern t topic : List ℕ)
    → IsName t
    → scan false (42 ∷ pattern) (t ++ (47 ∷ topic)) ≡ scan true pattern (47 ∷ topic)
unfolding scan
scan-star_level pattern [] topic o = absurd o
scan-star_level pattern (d ∷ t) topic o =
    ap (λ rest. scan true pattern rest) (skip_level (d ∷ t) topic o)

-- Where the topic has ended.
accepts_end : (levels : List Level) → IsPattern levels → accepts false levels [] ≡ false
accepts_end [] p = absurd p
accepts_end (word w ∷ levels) p = refl
accepts_end (star ∷ levels) p = refl
accepts_end (hash ∷ levels) p = refl

scan_end :
    (levels : List Level) → IsPattern levels → scan false (text levels) [] ≡ accepts true levels []
unfolding scan
scan_end [] p = absurd p
scan_end (word [] ∷ []) p = absurd p
scan_end (word (c ∷ w) ∷ []) p = ground (arith, p.0)
scan_end (word [] ∷ m ∷ levels) p = absurd p.0
scan_end (word (c ∷ w) ∷ m ∷ levels) p = ground (arith, p.0.0)
scan_end (star ∷ []) p = refl
scan_end (star ∷ m ∷ levels) p = refl
scan_end (hash ∷ []) p = refl
scan_end (hash ∷ m ∷ levels) p = absurd p

scan-accepts :
    (behind : Bool) (levels : List Level) (topic : List (List ℕ))
    → IsPattern levels
    → IsTopic topic
    → scan false (text levels) (join topic) ≡ accepts behind levels topic
unfolding scan
scan-accepts behind [] topic p o = absurd p
scan-accepts behind (l ∷ levels) [] p o = absurd o
scan-accepts behind (word w ∷ []) (t ∷ []) p o =
    ground (arith, scan-IsPlain w t (IsWord-IsPlain w p))
scan-accepts behind (word w ∷ []) (t ∷ u ∷ rest) p o =
    let plain = IsWord-IsPlain w p in
    ground (
      arith,
      scan-IsPlain w (t ++ (47 ∷ join (u ∷ rest))) plain,
      same-longer w t (join (u ∷ rest)) plain,
    )
scan-accepts behind (word w ∷ m ∷ levels) (t ∷ []) p o = ground (
  arith,
  scan-word_last w (text (m ∷ levels)) t (IsWord-IsPlain w p.0) (IsName-IsOneLevel t o),
  accepts_end (m ∷ levels) p.1,
)
scan-accepts behind (word w ∷ m ∷ levels) (t ∷ u ∷ rest) p o =
    scan-word w (text (m ∷ levels)) t (join (u ∷ rest)) (IsWord-IsPlain w p.0)
      (IsName-IsOneLevel t o.0)
    ∙ ap (λ b. if same w t then b else false) (scan-accepts false (m ∷ levels) (u ∷ rest) p.1 o.1)
scan-accepts behind (star ∷ []) (t ∷ []) p o = scan-star [] t o
scan-accepts behind (star ∷ []) (t ∷ u ∷ rest) p o = scan-star_level [] t (join (u ∷ rest)) o.0
scan-accepts behind (star ∷ m ∷ levels) (t ∷ []) p o =
    scan-star (47 ∷ text (m ∷ levels)) t o ∙ scan_end (m ∷ levels) p
scan-accepts behind (star ∷ m ∷ levels) (t ∷ u ∷ rest) p o =
    scan-star_level (47 ∷ text (m ∷ levels)) t (join (u ∷ rest)) o.0
    ∙ scan-accepts true (m ∷ levels) (u ∷ rest) p o.1
scan-accepts behind (hash ∷ []) ([] ∷ []) p o = absurd o
scan-accepts behind (hash ∷ []) ((d ∷ t) ∷ []) p o = refl
scan-accepts behind (hash ∷ []) ([] ∷ u ∷ rest) p o = absurd o.0
scan-accepts behind (hash ∷ []) ((d ∷ t) ∷ u ∷ rest) p o = refl
scan-accepts behind (hash ∷ m ∷ levels) (t ∷ rest) p o = absurd p

same_refl : (p : List ℕ) → same p p ≡ true
same_refl [] = refl
same_refl (c ∷ p) = ground (arith, same_refl p)

same_sound : (p t : List ℕ) → same p t ≡ true → p ≡ t
same_sound [] [] e = refl
same_sound [] (d ∷ t) e = cc
same_sound (c ∷ p) [] e = cc
same_sound (c ∷ p) (d ∷ t) e = ground (arith, same_sound p t)

IsPlain-IsOneLevel : (w : List ℕ) → IsPlain w → IsOneLevel w
IsPlain-IsOneLevel [] p = tt
IsPlain-IsOneLevel (c ∷ w) p = (p.0.0, IsPlain-IsOneLevel w p.1)

-- The scan agrees with the two shortcuts of `matches`.
scan_self : (levels : List Level) → IsPattern levels → scan false (text levels) (text levels) ≡ true
unfolding scan
scan_self [] p = absurd p
scan_self (word w ∷ []) p = scan-IsPlain w w (IsWord-IsPlain w p) ∙ same_refl w
scan_self (word w ∷ m ∷ levels) p =
    let plain = IsWord-IsPlain w p.0 in
    scan-word w (text (m ∷ levels)) w (text (m ∷ levels)) plain (IsPlain-IsOneLevel w plain)
    ∙ rw (same_refl w) (scan_self (m ∷ levels) p.1)
scan_self (star ∷ []) p = refl
scan_self (star ∷ m ∷ levels) p = scan_self (m ∷ levels) p
scan_self (hash ∷ []) p = refl
scan_self (hash ∷ m ∷ levels) p = absurd p

scan-same : (p t : List ℕ) → has_wildcards p ≡ false → scan false p t ≡ same p t
unfolding scan has_wildcards
scan-same [] [] e = refl
scan-same [] (d ∷ t) e = refl
scan-same (c ∷ p) [] e = ground (arith, e)
scan-same (c ∷ p) (d ∷ t) e = ground (arith, e, scan-same p t)

matches-scan :
    (levels : List Level) (t : List ℕ)
    → IsPattern levels
    → matches (text levels) t ≡ scan false (text levels) t
unfolding matches
matches-scan levels t p = elim (Bool-cases (same (text levels) t)) [
  | inl e ↦ rw e (
      sym (
        ap (λ x. scan false (text levels) x) (sym (same_sound (text levels) t e))
        ∙ scan_self levels p))
  | inr e ↦ elim (Bool-cases (has_wildcards (text levels))) [
    | inl wild ↦ rw (e, wild) refl
    | inr plain ↦ rw (e, plain) (sym e ∙ sym (scan-same (text levels) t plain))
  ]
]

-- For a pattern of one or more levels, in which '*' and '#' stand alone, '#' last, and a topic of one or
-- more levels, none of them empty, `matches` is matching level by level: a word matches itself, '*' one
-- level, '#' one level or more, and directly behind a '*' also none.
pub matches-accepts :
    (levels : List Level) (topic : List (List ℕ))
    → IsPattern levels
    → IsTopic topic
    → matches (text levels) (join topic) ≡ accepts false levels topic
matches-accepts levels topic p o =
    matches-scan levels (join topic) p ∙ scan-accepts false levels topic p o
