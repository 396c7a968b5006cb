-- ===== src/Encoding/Base64/RoundTrip.antt =====
-- Decoding what base64_encode_optimized writes, where the code does not hand over to OpenSSL.
use ipb.Base.{
  ℕ, zero, suc, ◌+◌, ◌-◌, ◌*◌, ◌/◌, ◌%◌, ◌^◌, ◌≤◌, ◌<◌, ◌≡◌, refl, ap, Bool, true, false, List, [],
  ◌∷◌, if◌then◌else◌, not, ◌==◌, ==_iff, Option, none, some, arith,
}
use ipb.Base.Int.{ℤ, pos, negsuc}
use ipb.Base.Result.{ok, ◌>>=◌}
use ipb.Base.Bytes.{AreBytes, passes, passes-at}
use ipb.Encoding.Tables.{letter, decode_entry}
use ipb.Encoding.Base64.{
  Evp, triple, sextet, padding, shift_in, encode_loop, decode_loop, strip_padding, decode_fallback,
  base64_encode_optimized, base64_decode_optimized,
}

abbrev is_pos : ℤ → ℕ → Bool
is_pos (pos a) b = a == b
is_pos (negsuc a) b = false

is_pos→eq : (a : ℤ) (b : ℕ) → is_pos a b ≡ true → a ≡ pos b
is_pos→eq (pos a) b h = ap pos ((==_iff a b).0 h)
is_pos→eq (negsuc a) b h = cc

url_letters : passes (λ i. is_pos (decode_entry true (letter true i)) i) 64 ≡ true
unfolding passes decode_entry letter
url_letters = refl

standard_letters : passes (λ i. is_pos (decode_entry false (letter false i)) i) 64 ≡ true
unfolding passes decode_entry letter
standard_letters = refl

-- Each decode table inverts its alphabet.
pub decode_entry-letter : (url : Bool) (i : ℕ) → i < 64 → decode_entry url (letter url i) ≡ pos i
decode_entry-letter true i h = is_pos→eq _ _ (passes-at _ 64 i url_letters h)
decode_entry-letter false i h = is_pos→eq _ _ (passes-at _ 64 i standard_letters h)

url_signs : passes (λ i. not (letter true i == b'=')) 64 ≡ true
unfolding passes letter
url_signs = refl

standard_signs : passes (λ i. not (letter false i == b'=')) 64 ≡ true
unfolding passes letter
standard_signs = refl

not-true : (b : Bool) → not b ≡ true → b ≡ false
not-true true h = cc
not-true false h = refl

-- No letter is the padding sign.
pub letter-ne : (url : Bool) (i : ℕ) → i < 64 → (letter url i == b'=') ≡ false
letter-ne true i h = not-true _ (passes-at _ 64 i url_signs h)
letter-ne false i h = not-true _ (passes-at _ 64 i standard_signs h)

-- One letter taken in.
module _ (url : Bool) (i : ℕ) (h : i < 64) (input : List ℕ) (buffer : ℕ) where
  take_short :
      (bits : ℕ)
      → bits < 2
      → decode_loop url (letter url i ∷ input) buffer bits
        ≡ decode_loop url input (shift_in buffer i) (bits + 6)
  unfolding decode_loop
  take_short bits k = ground (arith, decode_entry-letter url i h)

  take_long :
      (bits : ℕ)
      → 2 ≤ bits
      → decode_loop url (letter url i ∷ input) buffer bits ≡ (
          decode_loop url input (shift_in buffer i) (bits + 6 - 8) >>= λ output.
          ok ((shift_in buffer i / 2 ^ (bits + 6 - 8) % 256) ∷ output))
  unfolding decode_loop
  take_long bits k = ground (arith, decode_entry-letter url i h)

-- The bytes that come out of two neighbouring letters, whatever stood in the buffer.
out_four :
    (buffer s t : ℕ)
    → s < 64
    → t < 64
    → shift_in (shift_in buffer s) t / 2 ^ 4 % 256 ≡ s * 4 + t / 16
out_four buffer s t h k = omega arith

out_two :
    (buffer s t : ℕ)
    → s < 64
    → t < 64
    → shift_in (shift_in buffer s) t / 2 ^ 2 % 256 ≡ s % 16 * 16 + t / 4
out_two buffer s t h k = omega arith

out_zero :
    (buffer s t : ℕ)
    → s < 64
    → t < 64
    → shift_in (shift_in buffer s) t / 2 ^ 0 % 256 ≡ s % 4 * 64 + t
out_zero buffer s t h k = omega arith

-- The sextets of a triple put its bytes together again.
module _ (a b c : ℕ) (ha : a < 256) (hb : b < 256) (hc : c < 256) where
  sextets_first : sextet 18 (triple a b c) * 4 + sextet 12 (triple a b c) / 16 ≡ a
  sextets_first = omega arith

  sextets_second : sextet 12 (triple a b c) % 16 * 16 + sextet 6 (triple a b c) / 4 ≡ b
  sextets_second = omega arith

  sextets_third : sextet 6 (triple a b c) % 4 * 64 + sextet 0 (triple a b c) ≡ c
  sextets_third = omega arith

sextet-lt : (k t : ℕ) → sextet k t < 64
sextet-lt k t = omega arith

module _ (url : Bool) (s t u v : ℕ) (hs : s < 64) (ht : t < 64) (hu : u < 64) (hv : v < 64) where
  decode_two :
      (buffer : ℕ)
      → decode_loop url (letter url s ∷ letter url t ∷ []) buffer 0 ≡ ok ((s * 4 + t / 16) ∷ [])
  unfolding decode_loop
  decode_two buffer = rw (
    take_short url s hs (letter url t ∷ []) buffer 0 (omega arith),
    take_long url t ht [] (shift_in buffer s) 6 (omega arith),
    out_four buffer s t hs ht,
  )

  decode_three :
      (buffer : ℕ)
      → decode_loop url (letter url s ∷ letter url t ∷ letter url u ∷ []) buffer 0
        ≡ ok ((s * 4 + t / 16) ∷ (t % 16 * 16 + u / 4) ∷ [])
  unfolding decode_loop
  decode_three buffer = rw (
    take_short url s hs (letter url t ∷ letter url u ∷ []) buffer 0 (omega arith),
    take_long url t ht (letter url u ∷ []) (shift_in buffer s) 6 (omega arith),
    out_four buffer s t hs ht,
    take_long url u hu [] (shift_in (shift_in buffer s) t) 4 (omega arith),
    out_two (shift_in buffer s) t u ht hu,
  )

  decode_four :
      (rest out : List ℕ)
      → ((buffer : ℕ) → decode_loop url rest buffer 0 ≡ ok out)
      → (buffer : ℕ)
      → decode_loop url (letter url s ∷ letter url t ∷ letter url u ∷ letter url v ∷ rest) buffer 0
        ≡ ok ((s * 4 + t / 16) ∷ (t % 16 * 16 + u / 4) ∷ (u % 4 * 64 + v) ∷ out)
  decode_four rest out h buffer = rw (
    take_short url s hs (letter url t ∷ letter url u ∷ letter url v ∷ rest) buffer 0 (omega arith),
    take_long url t ht (letter url u ∷ letter url v ∷ rest) (shift_in buffer s) 6 (omega arith),
    out_four buffer s t hs ht,
    take_long url u hu (letter url v ∷ rest) (shift_in (shift_in buffer s) t) 4 (omega arith),
    out_two (shift_in buffer s) t u ht hu,
    take_long url v hv rest (shift_in (shift_in (shift_in buffer s) t) u) 2 (omega arith),
    out_zero (shift_in (shift_in buffer s) t) u v hu hv,
    h,
  )

-- Decoding the letters of a byte string, without padding, from an empty buffer.
pub decode_loop-encode_loop :
    (url : Bool) (input : List ℕ)
    → AreBytes input
    → (buffer : ℕ) → decode_loop url (encode_loop url false input) buffer 0 ≡ ok input
unfolding encode_loop
decode_loop-encode_loop url [] h buffer = unfold decode_loop in refl
decode_loop-encode_loop url (a ∷ []) h buffer =
    let t = triple a 0 0 in
    rw (
      decode_two url _ _ 0 0 (sextet-lt 18 t) (sextet-lt 12 t) (omega arith) (omega arith) buffer,
      sextets_first a 0 0 h.0 (omega arith) (omega arith),
    )
decode_loop-encode_loop url (a ∷ b ∷ []) h buffer =
    let t = triple a b 0 in
    rw (
      decode_three url _ _ _ 0 (sextet-lt 18 t) (sextet-lt 12 t) (sextet-lt 6 t) (omega arith)
          buffer,
      sextets_first a b 0 h.0 h.1.0 (omega arith),
      sextets_second a b 0 h.0 h.1.0 (omega arith),
    )
decode_loop-encode_loop url (a ∷ b ∷ c ∷ input) h buffer =
    let t = triple a b c in
    rw (
      decode_four url _ _ _ _ (sextet-lt 18 t) (sextet-lt 12 t) (sextet-lt 6 t) (sextet-lt 0 t)
          (encode_loop url false input) input (decode_loop-encode_loop url input h.1.1.1) buffer,
      sextets_first a b c h.0 h.1.0 h.1.1.0,
      sextets_second a b c h.0 h.1.0 h.1.1.0,
      sextets_third a b c h.0 h.1.0 h.1.1.0,
    )

-- A sign that is not the padding's stays, with all behind it that stays.
strip_padding-cons :
    (c : ℕ) (input : List ℕ)
    → (c == b'=') ≡ false
    → strip_padding (c ∷ input) ≡ (c ∷ (strip_padding input).0, (strip_padding input).1)
unfolding strip_padding
strip_padding-cons c input h = ground (arith)

pad_count : Bool → List ℕ → ℕ
pad_count pad [] = 0
pad_count pad (a ∷ []) = if pad then 2 else 0
pad_count pad (a ∷ b ∷ []) = if pad then 1 else 0
pad_count pad (a ∷ b ∷ c ∷ input) = pad_count pad input

pad_count-le : (pad : Bool) (input : List ℕ) → pad_count pad input ≤ 2
unfolding pad_count
pad_count-le pad [] = omega arith
pad_count-le pad (a ∷ []) = ground arith
pad_count-le pad (a ∷ b ∷ []) = ground arith
pad_count-le pad (a ∷ b ∷ c ∷ input) = pad_count-le pad input

strip_padding-letter :
    (url : Bool) (k t : ℕ) (input : List ℕ)
    → strip_padding (letter url (sextet k t) ∷ input)
      ≡ (letter url (sextet k t) ∷ (strip_padding input).0, (strip_padding input).1)
strip_padding-letter url k t input =
    strip_padding-cons _ input (letter-ne url (sextet k t) (sextet-lt k t))

strip_padding-padding :
    (pad : Bool) (n : ℕ) → strip_padding (padding pad n) ≡ ([], if pad then n else 0)
unfolding strip_padding
strip_padding-padding true zero = refl
strip_padding-padding true (suc n) = ground (arith, strip_padding-padding true n)
strip_padding-padding false n = refl

-- What the decoder's first loop takes off an encoded text is its padding.
strip_padding-encode_loop :
    (url pad : Bool) (input : List ℕ)
    → strip_padding (encode_loop url pad input) ≡ (encode_loop url false input, pad_count pad input)
unfolding encode_loop pad_count
strip_padding-encode_loop url pad [] = unfold strip_padding in refl
strip_padding-encode_loop url pad (a ∷ []) = simp (strip_padding-letter, strip_padding-padding)
strip_padding-encode_loop url pad (a ∷ b ∷ []) = simp (strip_padding-letter, strip_padding-padding)
strip_padding-encode_loop url pad (a ∷ b ∷ c ∷ input) =
    simp (strip_padding-letter, strip_padding-encode_loop url pad input)

decode_fallback-encode_loop :
    (url pad : Bool) (input : List ℕ)
    → AreBytes input
    → decode_fallback url (encode_loop url pad input) ≡ ok input
unfolding decode_fallback
decode_fallback-encode_loop url pad input h =
    rw (strip_padding-encode_loop url pad input)
      (ground (arith, pad_count-le pad input, decode_loop-encode_loop url input h 0))

-- The calls that the repository's own code serves: all of them in a build without OpenSSL, and those
-- for the URL-safe alphabet in any build.
abbrev pub IsOwn : Option Evp → Bool → Type 0
IsOwn none url = Unit
IsOwn (some evp) url = url ≡ true

pub encode-IsOwn :
    (evp : Option Evp) (url pad : Bool) (input : List ℕ)
    → IsOwn evp url
    → base64_encode_optimized evp input url pad ≡ encode_loop url pad input
unfolding base64_encode_optimized
encode-IsOwn none url pad input own = refl
encode-IsOwn (some evp) true pad [] own = refl
encode-IsOwn (some evp) true pad (a ∷ input) own = refl
encode-IsOwn (some evp) false pad input own = cc

decode-IsOwn :
    (evp : Option Evp) (url : Bool) (input : List ℕ)
    → IsOwn evp url
    → base64_decode_optimized evp input url ≡ decode_fallback url input
unfolding base64_decode_optimized
decode-IsOwn none url [] own = refl
decode-IsOwn none url (a ∷ input) own = refl
decode-IsOwn (some evp) true [] own = refl
decode-IsOwn (some evp) true (a ∷ input) own = refl
decode-IsOwn (some evp) false input own = cc

-- Decoding an encoded byte string gives it back, with or without padding, in either alphabet, for
-- the calls that are not OpenSSL's.
pub base64_decode-base64_encode :
    (evp : Option Evp) (url pad : Bool) (input : List ℕ)
    → IsOwn evp url
    → AreBytes input
    → base64_decode_optimized evp (base64_encode_optimized evp input url pad) url ≡ ok input
base64_decode-base64_encode evp url pad input own h =
    rw (encode-IsOwn evp url pad input own, decode-IsOwn evp url _ own)
      (decode_fallback-encode_loop url pad input h)
