-- ===== src/Encoding/Base64/Reference.antt =====
-- `Base64Transformer` (core/transform/include/ipb/transform/encoding/encoding.hpp) as the reference
-- of the free functions: its `transform` handles every chunk by the same code, short or full.
use ipb.Base.{ℕ, ◌≡◌, refl, Bool, true, false, List, [], ◌∷◌, ◌++◌, Option, none, some}
use ipb.Base.Result.{Result, ok}
use ipb.Encoding.Tables.{letter}
use ipb.Encoding.Base64.{Evp, triple, sextet, encode_loop, base64_encode_optimized}
use ipb.Encoding.Base64.RoundTrip.{IsOwn, encode-IsOwn}

abbrev byte_or_zero : Option ℕ → ℕ
byte_or_zero none = 0
byte_or_zero (some b) = b

-- `if (i + k < input.size()) push(letter); else if (use_padding_) push('=');`
abbrev letter_or_sign : Bool → Option ℕ → ℕ → List ℕ
letter_or_sign pad (some b) c = c ∷ []
letter_or_sign true none c = b'=' ∷ []
letter_or_sign false none c = []

-- One round of `Base64Transformer::transform`: a byte, and the two behind it if they are there.
unfoldable pub chunk : Bool → Bool → ℕ → Option ℕ → Option ℕ → List ℕ
chunk url pad a b c =
    let t = triple a (byte_or_zero b) (byte_or_zero c) in
    letter url (sextet 18 t)
    ∷ (letter url (sextet 12 t)
        ∷ (letter_or_sign pad b (letter url (sextet 6 t))
            ++ letter_or_sign pad c (letter url (sextet 0 t))))

pub transform_loop : Bool → Bool → List ℕ → List ℕ
unfolding chunk
transform_loop url pad [] = []
transform_loop url pad (a ∷ []) = chunk url pad a none none
transform_loop url pad (a ∷ b ∷ []) = chunk url pad a (some b) none
transform_loop url pad (a ∷ b ∷ c ∷ input) =
    chunk url pad a (some b) (some c) ++ transform_loop url pad input

-- `Base64Transformer::transform`
unfoldable pub transform : Bool → Bool → List ℕ → Result (List ℕ)
unfolding transform_loop
transform url pad input = ok (transform_loop url pad input)

transform_loop-eq-encode_loop :
    (url pad : Bool) (input : List ℕ) → transform_loop url pad input ≡ encode_loop url pad input
unfolding transform_loop encode_loop
transform_loop-eq-encode_loop url pad [] = refl
transform_loop-eq-encode_loop url true (a ∷ []) = refl
transform_loop-eq-encode_loop url false (a ∷ []) = refl
transform_loop-eq-encode_loop url true (a ∷ b ∷ []) = refl
transform_loop-eq-encode_loop url false (a ∷ b ∷ []) = refl
transform_loop-eq-encode_loop url pad (a ∷ b ∷ c ∷ input) =
    simp (transform_loop-eq-encode_loop url pad input)

-- The free encoder, where it does not hand over to OpenSSL, and the transformer write the same text
-- for every byte string, in either alphabet, with or without padding.
pub transform-eq-base64_encode :
    (evp : Option Evp) (url pad : Bool) (input : List ℕ)
    → IsOwn evp url
    → transform url pad input ≡ ok (base64_encode_optimized evp input url pad)
unfolding transform
transform-eq-base64_encode evp url pad input own =
    rw (transform_loop-eq-encode_loop url pad input, encode-IsOwn evp url pad input own)
