-- ===== src/Data/Value/Overflow.antt =====
-- `Value::deserialize` (data_point.cpp) on untrusted buffers: the check of the size field, where it
-- holds and where it does not.
use ipb.Base.{
  ℕ, suc, ◌+◌, ◌-◌, ◌^◌, ◌≤◌, ◌<◌, ◌≡◌, ◌≢◌, false, List, [], ◌∷◌, ◌++◌, if◌then◌else◌, ltb, length,
  take, drop, length-append, length-drop, arith, Bool-cases, inl, inr,
}
use ipb.Base.Bytes.{le_bytes, from_le, length-le_bytes}
use ipb.Data.Value.{
  Storage, inline, external, dangling, Value, inline_size, refused, terminated, overrun, freed,
  accept, deserialize,
}
use ipb.Data.Value.Storing.{IsStored, IsValid}
use ipb.Data.Value.Serial.{header}

-- The size field of a buffer.
abbrev pub size_field : List ℕ → ℕ
size_field buffer = from_le (take 8 (drop 1 buffer))

accept-ne-overrun :
    (kind size : ℕ) (buffer rest : List ℕ) (w : Value)
    → size < 2 ^ 64 - 9
    → length buffer ≡ 9 + length rest
    → (accept kind size buffer rest w ≢ overrun) × (accept kind size buffer rest w ≢ terminated)
accept-ne-overrun kind size buffer rest w small e = (ground arith, ground arith)

-- A buffer whose size field is below 2^64 - 9 is accepted or refused: `deserialize` does not read past
-- its end, and does not terminate the program.
pub deserialize-ne-overrun :
    (buffer : List ℕ) (w : Value)
    → size_field buffer < 2 ^ 64 - 9
    → (deserialize buffer w ≢ overrun) × (deserialize buffer w ≢ terminated)
unfolding deserialize
deserialize-ne-overrun [] w small = (λ e. cc, λ e. cc)
deserialize-ne-overrun (kind ∷ rest) w small = elim (Bool-cases (ltb (suc (length rest)) 9)) [
  | inl e ↦ rw e (λ h. cc, λ h. cc)
  | inr e ↦ rw e (
      accept-ne-overrun kind (from_le (take 8 rest)) (kind ∷ rest) (drop 8 rest) w small
        (ground (arith, length-drop 8 rest)))
]

module _ (kind n : ℕ) (rest : List ℕ) (w : Value) where
  abbrev crafted : List ℕ
  crafted = kind ∷ (le_bytes 8 n ++ rest)

  length-crafted : length crafted ≡ 9 + length rest
  length-crafted = omega (arith, length-append (le_bytes 8 n) rest, length-le_bytes 8 n)

  deserialize-crafted : n < 2 ^ 64 → deserialize crafted w ≡ accept kind n crafted rest w
  unfolding deserialize
  deserialize-crafted h =
      let enough : ltb (length crafted) 9 ≡ false = ground (arith, length-crafted) in
      rw (enough, (header n rest h).0, (header n rest h).1)

-- The sum `offset + size_` wraps: a size field of 2^64 - 9 or more passes the check in every buffer
-- that holds a header, whatever its type and whatever the target, and the allocation that follows
-- terminates the program instead of the buffer being refused.
pub deserialize_terminates :
    (kind n : ℕ) (rest : List ℕ) (w : Value)
    → 2 ^ 64 - 9 ≤ n
    → n < 2 ^ 64
    → deserialize (kind ∷ (le_bytes 8 n ++ rest)) w ≡ terminated
deserialize_terminates kind n rest w large h =
    rw (deserialize-crafted kind n rest w h) (ground (arith, length-crafted kind n rest w))

not_stored :
    (n m : ℕ) (s : Storage)
    → IsStored m s
    → inline_size < n
    → IsStored n (if ltb inline_size m then dangling else s)
    → ⊥
not_stored n m (inline bytes) v big h = ground arith
not_stored n m (external bytes) v big h = ground arith
not_stored n m dangling v big h = ground arith

-- A refused buffer spoils the value: with a size field above 56 that the buffer does not fill, the
-- target is left with that size and no block of bytes to go with it.
pub deserialize_spoils :
    (kind n : ℕ) (rest : List ℕ) (w : Value)
    → IsValid w
    → length rest < n
    → inline_size < n
    → n < 2 ^ 64 - 9
    → (u : Value) × (deserialize (kind ∷ (le_bytes 8 n ++ rest)) w ≡ refused u) × ¬ IsValid u
deserialize_spoils kind n rest w v short big small = (
  record { kind = kind; size = n; storage = freed w },
  rw (deserialize-crafted kind n rest w (omega arith))
      (ground (arith, length-crafted kind n rest w)),
  spoiled,
)
  where
    spoiled : ¬ IsStored n (freed w)
    spoiled h = not_stored n w.size w.storage v big h
