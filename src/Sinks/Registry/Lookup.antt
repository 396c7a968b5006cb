-- ===== src/Sinks/Registry/Lookup.antt =====
-- The registry's map of sinks (sink_registry.cpp): what `find` sees after an update or an erasure.
use Prim.Native.String.{String}
use text.Mathlib.TextEquality.{eq_iff}
use ipb.Base.{◌+◌, ◌≡◌, refl, ◌≢◌, List, [], ◌∷◌, none, some, length, arith}
use ipb.Sinks.Info.{SinkInfo}
use ipb.Sinks.Registry.{find, erase, update}

-- The ids of the map are distinct.
abbrev pub Distinct : List SinkInfo → Type 0
Distinct [] = Unit
Distinct (s ∷ sinks) = (find s.id sinks ≡ none) × Distinct sinks

-- A change that leaves the id alone.
abbrev pub KeepsId : (SinkInfo → SinkInfo) → Type 0
KeepsId f = (s : SinkInfo) → (f s).id ≡ s.id

module _ (id : String) (f : SinkInfo → SinkInfo) (keeps : KeepsId f) where
  pub find-update-none :
      (j : String) (sinks : List SinkInfo) → find j sinks ≡ none → find j (update id f sinks) ≡ none
  unfolding find update
  find-update-none j [] h = refl
  find-update-none j (s ∷ sinks) h = ground (arith, find-update-none j sinks, keeps s)

  pub update-Distinct : (sinks : List SinkInfo) → Distinct sinks → Distinct (update id f sinks)
  unfolding update
  update-Distinct [] d = tt
  update-Distinct (s ∷ sinks) d =
      ground (arith, keeps s, find-update-none s.id sinks d.0, update-Distinct sinks d.1)

  pub length-update : (sinks : List SinkInfo) → length (update id f sinks) ≡ length sinks
  unfolding update
  length-update [] = refl
  length-update (s ∷ sinks) = ground (arith, length-update sinks)

  pub find-update_self :
      (sinks : List SinkInfo) (s : SinkInfo)
      → find id sinks ≡ some s
      → find id (update id f sinks) ≡ some (f s)
  unfolding find update
  find-update_self [] s h = cc
  find-update_self (t ∷ sinks) s h = ground (arith, find-update_self sinks s, keeps t)

  pub find-update_ne :
      (j : String) (sinks : List SinkInfo) → id ≢ j → find j (update id f sinks) ≡ find j sinks
  unfolding find update
  find-update_ne j [] h = refl
  find-update_ne j (t ∷ sinks) h =
      ground (arith, find-update_ne j sinks h, keeps t, eq_iff t.id id, eq_iff t.id j)

pub find-erase-none :
    (id j : String) (sinks : List SinkInfo) → find j sinks ≡ none → find j (erase id sinks) ≡ none
unfolding find erase
find-erase-none id j [] h = refl
find-erase-none id j (s ∷ sinks) h = ground (arith, find-erase-none id j sinks)

pub erase-Distinct :
    (id : String) (sinks : List SinkInfo) → Distinct sinks → Distinct (erase id sinks)
unfolding erase
erase-Distinct id [] d = tt
erase-Distinct id (s ∷ sinks) d =
    ground (arith, erase-Distinct id sinks d.1, find-erase-none id s.id sinks d.0)

pub length-erase :
    (id : String) (sinks : List SinkInfo) (s : SinkInfo)
    → find id sinks ≡ some s
    → length (erase id sinks) + 1 ≡ length sinks
unfolding find erase
length-erase id [] s h = cc
length-erase id (t ∷ sinks) s h = ground (arith, length-erase id sinks s)

-- After `erase` the id is gone.
pub find-erase_self :
    (id : String) (sinks : List SinkInfo) → Distinct sinks → find id (erase id sinks) ≡ none
unfolding find erase
find-erase_self id [] d = refl
find-erase_self id (s ∷ sinks) d = ground (arith, find-erase_self id sinks d.1, eq_iff s.id id)
