-- ===== src/Encoding/Hex.antt =====
-- Hexadecimal text: `hex_encode_optimized` and `hex_decode_optimized` of core/transform/src/encoding.cpp,
-- and the methods of `HexTransformer` in core/transform/include/ipb/transform/encoding/encoding.hpp.
pub mod RoundTrip
use ipb.Base.{
  ℕ, ◌+◌, ◌-◌, ◌*◌, ◌/◌, ◌%◌, Bool, true, false, List, [], ◌∷◌, if◌then◌else◌, leb, ◌==◌, ◌&&◌,
  length,
}
use ipb.Base.Int.{ℤ, pos, negsuc}
use ipb.Base.Result.{Result, ok, err, decoding_error, ◌>>=◌}
use ipb.Encoding.Tables.{hex_letter, hex_entry}

-- One round of the loop pushes two digits. An empty input has an empty output.
pub hex_encode_optimized : List ℕ → Bool → List ℕ
hex_encode_optimized [] uppercase = []
hex_encode_optimized (byte ∷ input) uppercase =
    hex_letter uppercase (byte / 16)
    ∷ (hex_letter uppercase (byte % 16) ∷ hex_encode_optimized input uppercase)

-- `if (high < 0 || low < 0) return DECODING_ERROR;`, else `(uint8_t)((high << 4) | low)`: a table
-- entry is below 16, so `|` is a sum.
pub join_digits : ℤ → ℤ → Result ℕ
join_digits (pos high) (pos low) = ok ((high * 16 + low) % 256)
join_digits _ _ = err decoding_error

-- The loop of `hex_decode_optimized`, two digits a round. A lone last digit is not reached: the size
-- is even.
pub decode_loop : List ℕ → Result (List ℕ)
unfolding join_digits
decode_loop [] = ok []
decode_loop (c ∷ []) = err decoding_error
decode_loop (c ∷ d ∷ input) = join_digits (hex_entry c) (hex_entry d) >>= λ byte.
    decode_loop input >>= λ output. ok (byte ∷ output)

-- An empty input takes no round.
pub hex_decode_optimized : List ℕ → Result (List ℕ)
unfolding decode_loop
hex_decode_optimized input = if length input % 2 == 0 then decode_loop input else err decoding_error

-- `HexTransformer::hex_value`
pub hex_value : ℕ → ℤ
hex_value c =
    if leb 48 c && leb c 57
    then pos (c - 48)
    else if leb 97 c && leb c 102
    then pos (c - 97 + 10)
    else if leb 65 c && leb c 70
    then pos (c - 65 + 10)
    else negsuc 0

-- `HexTransformer::transform`
pub transform_loop : Bool → List ℕ → List ℕ
transform_loop uppercase [] = []
transform_loop uppercase (byte ∷ input) =
    hex_letter uppercase (byte / 16)
    ∷ (hex_letter uppercase (byte % 16) ∷ transform_loop uppercase input)

pub transform : Bool → List ℕ → Result (List ℕ)
unfolding transform_loop
transform uppercase input = ok (transform_loop uppercase input)

-- The loop of `HexTransformer::inverse`.
pub inverse_loop : List ℕ → Result (List ℕ)
unfolding join_digits hex_value
inverse_loop [] = ok []
inverse_loop (c ∷ []) = err decoding_error
inverse_loop (c ∷ d ∷ input) = join_digits (hex_value c) (hex_value d) >>= λ byte.
    inverse_loop input >>= λ output. ok (byte ∷ output)

-- `HexTransformer::inverse`
pub inverse : List ℕ → Result (List ℕ)
unfolding inverse_loop
inverse input = if length input % 2 == 0 then inverse_loop input else err decoding_error
