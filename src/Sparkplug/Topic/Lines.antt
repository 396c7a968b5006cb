-- ===== src/Sparkplug/Topic/Lines.antt =====
-- Splitting a topic at '/' (the loop of `SparkplugTopic::parse`, sparkplug_topic.cpp).
use ipb.Base.{
  ℕ, ◌<◌, ◌≡◌, sym, ap, ◌∙◌, inl, inr, Bool, true, false, List, [], ◌∷◌, ◌++◌, if◌then◌else◌, ◌==◌,
  length, All, arith, Bool-cases,
}
use mathlib.Core.Bool.{false≢true}
use mathlib.Core.List.{append_assoc, append-nil}
use ipb.MessageBus.Topic.{slash}
use ipb.Sparkplug.Topic.{lines_from, getlines}

-- A text without the separator.
abbrev pub IsPart : List ℕ → Type 0
IsPart = All (λ c. (c == slash) ≡ false)

-- The same as a test, for texts that are given.
abbrev pub is_part : List ℕ → Bool
is_part [] = true
is_part (c ∷ text) = let rest = is_part text in if c == slash then false else rest

pub is_part-IsPart : (text : List ℕ) → is_part text ≡ true → IsPart text
is_part-IsPart [] h = tt
is_part-IsPart (c ∷ text) h = elim (Bool-cases (c == slash)) [
  | inl e ↦ absurd (false≢true (sym (ap (λ b. if b then false else is_part text) e) ∙ h))
  | inr e ↦ (e, is_part-IsPart text (sym (ap (λ b. if b then false else is_part text) e) ∙ h))
]

lines_from-part :
    (part text rest : List ℕ)
    → IsPart text
    → lines_from part (text ++ rest) ≡ lines_from (part ++ text) rest
unfolding lines_from
lines_from-part part [] rest h = ap (λ p. lines_from p rest) (sym (append-nil part))
lines_from-part part (c ∷ text) rest (hc, h) =
    rw (hc, lines_from)
      (lines_from-part (part ++ (c ∷ [])) text rest h
        ∙ ap (λ p. lines_from p rest) (append_assoc part (c ∷ []) text))

-- A part that is followed by a separator, and the last one.
pub getlines-slash :
    (text rest : List ℕ) → IsPart text → getlines (text ++ (slash ∷ rest)) ≡ text ∷ getlines rest
unfolding lines_from
getlines-slash text rest h = lines_from-part [] text (slash ∷ rest) h

pub getlines-last : (text : List ℕ) → IsPart text → 0 < length text → getlines text ≡ text ∷ []
unfolding lines_from
getlines-last (c ∷ text) h l =
    ap (lines_from []) (sym (append-nil (c ∷ text))) ∙ lines_from-part [] (c ∷ text) [] h
getlines-last [] h l = absurd (omega arith)
