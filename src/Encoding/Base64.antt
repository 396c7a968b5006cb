-- ===== src/Encoding/Base64.antt =====
-- Base64 text: the implementation of core/transform/src/encoding.cpp that runs for the URL-safe
-- alphabet, for output without padding and in a build without OpenSSL, and `transform` of
-- `Base64Transformer` in core/transform/include/ipb/transform/encoding/encoding.hpp.
pub mod RoundTrip
pub mod Reference
use ipb.Base.{
  ℕ, zero, suc, ◌+◌, ◌-◌, ◌*◌, ◌/◌, ◌%◌, ◌^◌, Bool, true, false, List, [], ◌∷◌, ◌++◌, if◌then◌else◌,
  leb, ltb, ◌==◌, Option, none, some, take, length,
}
use ipb.Base.Int.{ℤ, pos, negsuc}
use ipb.Base.Result.{Result, ok, err, decoding_error, ◌>>=◌}
use ipb.Encoding.Tables.{letter, decode_entry}

-- Four letters of a 24-bit `triple`: `alphabet[(triple >> 6 k) & 0x3F]`. The three bytes of a triple
-- do not overlap, so each `|` is a sum.
abbrev pub triple : ℕ → ℕ → ℕ → ℕ
triple a b c = a * 2 ^ 16 + b * 2 ^ 8 + c

abbrev pub sextet : ℕ → ℕ → ℕ
sextet k t = t / 2 ^ k % 64

-- What follows `if (use_padding)`.
abbrev pub padding : Bool → ℕ → List ℕ
padding true zero = []
padding true (suc n) = b'=' ∷ padding true n
padding false n = []

-- The loop over full chunks, and the one or two bytes behind them.
pub encode_loop : Bool → Bool → List ℕ → List ℕ
encode_loop url pad [] = []
encode_loop url pad (a ∷ []) =
    letter url (sextet 18 (triple a 0 0)) ∷ (letter url (sextet 12 (triple a 0 0)) ∷ padding pad 2)
encode_loop url pad (a ∷ b ∷ []) =
    letter url (sextet 18 (triple a b 0))
    ∷ (letter url (sextet 12 (triple a b 0))
        ∷ (letter url (sextet 6 (triple a b 0)) ∷ padding pad 1))
encode_loop url pad (a ∷ b ∷ c ∷ input) =
    letter url (sextet 18 (triple a b c))
    ∷ (letter url (sextet 12 (triple a b c))
        ∷ (letter url (sextet 6 (triple a b c))
            ∷ (letter url (sextet 0 (triple a b c)) ∷ encode_loop url pad input)))

-- What the build links: OpenSSL's `EVP_EncodeBlock` and `EVP_DecodeBlock` (`none` is a negative
-- return), or nothing (`IPB_HAS_OPENSSL` undefined).
pub record Evp : Type 0 where
  pub encode_block : List ℕ → List ℕ
  pub decode_block : List ℕ → Option (List ℕ)

abbrev is_empty : List ℕ → Bool
is_empty [] = true
is_empty (x ∷ xs) = false

-- `base64_encode_optimized`
pub base64_encode_optimized : Option Evp → List ℕ → Bool → Bool → List ℕ
unfolding encode_loop
base64_encode_optimized none input url pad = encode_loop url pad input
base64_encode_optimized (some evp) [] url pad = []
base64_encode_optimized (some evp) (a ∷ input) true pad = encode_loop true pad (a ∷ input)
base64_encode_optimized (some evp) (a ∷ input) false false = encode_loop false false (a ∷ input)
base64_encode_optimized (some evp) (a ∷ input) false true = evp.encode_block (a ∷ input)

-- `buffer = (buffer << 6) | value`, on a uint32_t: the low six bits of the shifted buffer are clear.
abbrev pub shift_in : ℕ → ℕ → ℕ
shift_in buffer value = (buffer * 64 + value) % 2 ^ 32

-- The decoder's loop. The low `bits` bits of `buffer` wait for output. An entry of -2 is skipped, any
-- other negative one is an error.
pub decode_loop : Bool → List ℕ → ℕ → ℕ → Result (List ℕ)
decode_loop url [] buffer bits = ok []
decode_loop url (c ∷ input) buffer bits = elim (decode_entry url c) [
  | pos value ↦
      if leb 8 (bits + 6)
      then (decode_loop url input (shift_in buffer value) (bits + 6 - 8) >>= λ output.
          ok ((shift_in buffer value / 2 ^ (bits + 6 - 8) % 256) ∷ output))
      else decode_loop url input (shift_in buffer value) (bits + 6)
  | negsuc zero ↦ err decoding_error
  | negsuc (suc zero) ↦ decode_loop url input buffer bits
  | negsuc (suc (suc n)) ↦ err decoding_error
]

-- `while (len > 0 && input[len - 1] == '=') { padding++; len--; }`: what is left of the input, and the
-- number of signs taken off its end.
pub strip_padding : List ℕ → List ℕ × ℕ
strip_padding [] = ([], 0)
strip_padding (c ∷ input) =
    let (rest, n) = strip_padding input in
    elim rest [ [] ↦ if c == b'=' then ([], n + 1) else (c ∷ [], n) | d ∷ ds ↦ (c ∷ d ∷ ds, n) ]

-- The decoder that is not OpenSSL's.
pub decode_fallback : Bool → List ℕ → Result (List ℕ)
unfolding strip_padding decode_loop
decode_fallback url input =
    let (rest, n) = strip_padding input in
    if ltb 2 n then err decoding_error else decode_loop url rest 0 0

-- `if (input[size - 1] == '=') padding++; if (input[size - 2] == '=') padding++;`
abbrev last_signs : List ℕ → ℕ
last_signs [] = 0
last_signs (c ∷ []) = if c == b'=' then 1 else 0
last_signs (c ∷ d ∷ []) = (if d == b'=' then 1 else 0) + (if c == b'=' then 1 else 0)
last_signs (c ∷ d ∷ e ∷ input) = last_signs (d ∷ e ∷ input)

-- `output.resize(decoded_len - padding)`, a size_t.
abbrev resized : Option (List ℕ) → ℕ → Result (List ℕ)
resized none n = err decoding_error
resized (some output) n = ok (take ((length output + 2 ^ 64 - n) % 2 ^ 64) output)

-- `base64_decode_optimized`
pub base64_decode_optimized : Option Evp → List ℕ → Bool → Result (List ℕ)
unfolding decode_fallback
base64_decode_optimized none [] url = ok []
base64_decode_optimized none (c ∷ input) url = decode_fallback url (c ∷ input)
base64_decode_optimized (some evp) [] url = ok []
base64_decode_optimized (some evp) (c ∷ input) true = decode_fallback true (c ∷ input)
base64_decode_optimized (some evp) (c ∷ input) false =
    resized (evp.decode_block (c ∷ input)) (last_signs (c ∷ input))
