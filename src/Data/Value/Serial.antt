-- ===== src/Data/Value/Serial.antt =====
-- `Value::serialize` and `Value::deserialize` (data_point.cpp): the round trip.
use ipb.Base.{
  ℕ, zero, suc, ◌+◌, ◌-◌, ◌^◌, ◌≤◌, ◌<◌, ◌≡◌, refl, ap, inl, inr, true, false, List, ◌∷◌, ◌++◌, leb,
  ltb, length, take, drop, length-append, take-append_of_length, drop-append_of_length, arith,
  Bool-cases, ◌∙◌,
}
use mathlib.Core.List.{append_assoc}
use ipb.Base.Bytes.{le_bytes, from_le, length-le_bytes, from_le-le_bytes}
use ipb.Data.Value.{
  Value, store, stored, bytes_or_nil, serialized_size, encode, serialize, Parse, accepted, refused,
  terminated, overrun, needed, read, accept, deserialize,
}
use ipb.Data.Value.Storing.{contents, IsValid, length-contents, stored-store, take_all}

-- The value that comes out of a parse: valid, and equal to `v` in type, size and bytes.
abbrev pub Reads : Value → Parse → Type 0
Reads v (accepted u) = (u.kind ≡ v.kind) × (u.size ≡ v.size) × (contents u ≡ contents v)
Reads v (refused u) = ⊥
Reads v terminated = ⊥
Reads v overrun = ⊥

pub header :
    (n : ℕ) (rest : List ℕ)
    → n < 2 ^ 64
    → (from_le (take 8 (le_bytes 8 n ++ rest)) ≡ n) × (drop 8 (le_bytes 8 n ++ rest) ≡ rest)
header n rest h = (
  ap from_le (take-append_of_length 8 (le_bytes 8 n) rest (length-le_bytes 8 n))
      ∙ from_le-le_bytes 8 n h,
  drop-append_of_length 8 (le_bytes 8 n) rest (length-le_bytes 8 n),
)

contents-store :
    (n : ℕ) (bytes : List ℕ)
    → length bytes ≡ n
    → take n (bytes_or_nil (stored (store bytes))) ≡ bytes
contents-store n bytes h = rw (stored-store bytes, ← h) (take_all bytes)

take_zero : (n : ℕ) (xs ys : List ℕ) → n ≡ 0 → take n xs ≡ take n ys
take_zero zero xs ys h = refl
take_zero (suc n) xs ys h = absurd (omega arith)

read-Reads :
    (v : Value) (tail : List ℕ)
    → IsValid v
    → v.size < 2 ^ 64 - 9
    → Reads v (read v.kind v.size (contents v ++ tail))
read-Reads v tail h small =
    let possible : leb (2 ^ 64 - 9) v.size ≡ false = ground arith in
    let enough : leb v.size (length (contents v ++ tail)) ≡ true =
      ground (arith, length-append (contents v) tail, length-contents v h) in
    rw (possible, enough, take-append_of_length v.size (contents v) tail (length-contents v h))
      (refl, refl, contents-store v.size (contents v) (length-contents v h))

accept-Reads :
    (v w : Value) (buffer tail : List ℕ)
    → IsValid v
    → v.size < 2 ^ 64 - 9
    → 9 + v.size ≤ length buffer
    → Reads v (accept v.kind v.size buffer (contents v ++ tail) w)
accept-Reads v w buffer tail h small fits =
    let fits' : ltb (length buffer) (needed v.size) ≡ false = ground arith in
    elim (Bool-cases (ltb 0 v.size)) [
      | inl e ↦ rw (fits', e) (read-Reads v tail h small)
      | inr e ↦
          let z : v.size ≡ 0 = ground arith in rw (fits', e) (refl, refl, take_zero v.size _ _ z)
    ]

-- Decoding the encoding of a valid value, with anything behind it, gives the value back, whatever the
-- target held; the size is below 2^64 - 9.
pub deserialize-encode :
    (v w : Value) (tail : List ℕ)
    → IsValid v
    → v.size < 2 ^ 64 - 9
    → Reads v (deserialize (encode v ++ tail) w)
unfolding deserialize encode
deserialize-encode v w tail h small =
    let split : (le_bytes 8 v.size ++ contents v) ++ tail
        ≡ le_bytes 8 v.size ++ (contents v ++ tail) =
      append_assoc (le_bytes 8 v.size) (contents v) tail in
    let long : length (le_bytes 8 v.size ++ (contents v ++ tail)) ≡ 8 + (v.size + length tail) =
      omega (
        arith,
        length-append (le_bytes 8 v.size) (contents v ++ tail),
        length-append (contents v) tail,
        length-le_bytes 8 v.size,
        length-contents v h,
      ) in
    let enough : ltb (suc (length (le_bytes 8 v.size ++ (contents v ++ tail)))) 9 ≡ false =
      ground arith in
    let head = header v.size (contents v ++ tail) (omega arith) in
    rw (split, enough, head.0, head.1)
      (accept-Reads v w (v.kind ∷ (le_bytes 8 v.size ++ (contents v ++ tail))) tail h small
        (omega arith))

-- `serialize` into a buffer that is large enough, read back by `deserialize` into any value, gives a
-- value of the same type, size and bytes; the size is below 2^64 - 9.
pub deserialize-serialize :
    (v w : Value) (buffer : List ℕ)
    → IsValid v
    → v.size < 2 ^ 64 - 9
    → serialized_size v ≤ length buffer
    → Reads v (deserialize (serialize v buffer) w)
unfolding serialize
deserialize-serialize v w buffer h small fits =
    let room : ltb (length buffer) (serialized_size v) ≡ false = ground arith in
    rw room (deserialize-encode v w (drop (serialized_size v) buffer) h small)
