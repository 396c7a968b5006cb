-- ===== src/Encoding/Hex/RoundTrip.antt =====
-- Decoding what hex_encode_optimized and HexTransformer::transform write.
use ipb.Base.{
  ℕ, ◌*◌, ◌/◌, ◌%◌, ◌<◌, ◌≡◌, refl, ap, Bool, true, false, List, [], ◌∷◌, ltb, ◌==◌, ==_iff, length,
  arith,
}
use ipb.Base.Int.{ℤ, pos, negsuc}
use ipb.Base.Result.{ok, ◌>>=◌}
use ipb.Base.Bytes.{AreBytes, passes, passes-at}
use ipb.Encoding.Tables.{hex_letter, hex_entry}
use ipb.Encoding.Hex.{
  hex_encode_optimized, hex_decode_optimized, decode_loop, hex_value, transform, transform_loop,
  inverse, inverse_loop,
}

-- Equality of table entries, as a test.
abbrev same : ℤ → ℤ → Bool
same (pos a) (pos b) = a == b
same (negsuc a) (negsuc b) = a == b
same _ _ = false

same→eq : (a b : ℤ) → same a b ≡ true → a ≡ b
same→eq (pos a) (pos b) h = ap pos ((==_iff a b).0 h)
same→eq (pos a) (negsuc b) h = cc
same→eq (negsuc a) (pos b) h = cc
same→eq (negsuc a) (negsuc b) h = ap negsuc ((==_iff a b).0 h)

lower_digits : passes (λ i. same (hex_entry (hex_letter false i)) (pos i)) 16 ≡ true
unfolding passes hex_entry hex_letter
lower_digits = refl

upper_digits : passes (λ i. same (hex_entry (hex_letter true i)) (pos i)) 16 ≡ true
unfolding passes hex_entry hex_letter
upper_digits = refl

-- The decode table inverts both alphabets.
pub hex_entry-hex_letter : (up : Bool) (i : ℕ) → i < 16 → hex_entry (hex_letter up i) ≡ pos i
hex_entry-hex_letter true i h = same→eq _ _ (passes-at _ 16 i upper_digits h)
hex_entry-hex_letter false i h = same→eq _ _ (passes-at _ 16 i lower_digits h)

table : passes (λ c. same (hex_entry c) (hex_value c)) 256 ≡ true
unfolding passes hex_entry hex_value
table = refl

-- On every byte the table of the free functions agrees with the comparisons of the transformer.
pub hex_entry-eq-hex_value : (c : ℕ) → c < 256 → hex_entry c ≡ hex_value c
hex_entry-eq-hex_value c h = same→eq _ _ (passes-at _ 256 c table h)

length-hex_encode_optimized :
    (input : List ℕ) (up : Bool) → length (hex_encode_optimized input up) ≡ length input * 2
unfolding hex_encode_optimized
length-hex_encode_optimized [] up = refl
length-hex_encode_optimized (b ∷ input) up = omega (arith, length-hex_encode_optimized input up)

length_even : (input : List ℕ) (up : Bool) → length (hex_encode_optimized input up) % 2 ≡ 0
length_even input up = omega (arith, length-hex_encode_optimized input up)

decode_loop-hex_encode_optimized :
    (input : List ℕ) (up : Bool)
    → AreBytes input
    → decode_loop (hex_encode_optimized input up) ≡ ok input
unfolding hex_encode_optimized decode_loop
decode_loop-hex_encode_optimized [] up h = refl
decode_loop-hex_encode_optimized (b ∷ input) up h = ground (
  arith,
  hex_entry-hex_letter up (b / 16),
  hex_entry-hex_letter up (b % 16),
  decode_loop-hex_encode_optimized input up h.1,
)

-- Decoding an encoded byte string, in lower or upper case, gives the byte string back.
pub hex_decode-hex_encode :
    (input : List ℕ) (up : Bool)
    → AreBytes input
    → hex_decode_optimized (hex_encode_optimized input up) ≡ ok input
unfolding hex_decode_optimized
hex_decode-hex_encode input up h =
    rw (length_even input up) (decode_loop-hex_encode_optimized input up h)

decode_loop-eq-inverse_loop :
    (input : List ℕ) → AreBytes input → decode_loop input ≡ inverse_loop input
unfolding decode_loop inverse_loop
decode_loop-eq-inverse_loop [] h = refl
decode_loop-eq-inverse_loop (c ∷ []) h = refl
decode_loop-eq-inverse_loop (c ∷ d ∷ input) h = simp (
  hex_entry-eq-hex_value c h.0,
  hex_entry-eq-hex_value d h.1.0,
  decode_loop-eq-inverse_loop input h.1.1,
)

-- On every byte string, well formed or not, the two decoders return the same result.
pub hex_decode-eq-inverse :
    (input : List ℕ) → AreBytes input → hex_decode_optimized input ≡ inverse input
unfolding hex_decode_optimized inverse
hex_decode-eq-inverse input h = rw (decode_loop-eq-inverse_loop input h)

transform_loop-eq :
    (input : List ℕ) (up : Bool) → transform_loop up input ≡ hex_encode_optimized input up
unfolding transform_loop hex_encode_optimized
transform_loop-eq [] up = refl
transform_loop-eq (b ∷ input) up = simp (transform_loop-eq input up)

small_letters : (up : Bool) → passes (λ i. ltb (hex_letter up i) 256) 16 ≡ true
unfolding passes hex_letter
small_letters true = refl
small_letters false = refl

hex_letter-IsByte : (up : Bool) (i : ℕ) → i < 16 → hex_letter up i < 256
hex_letter-IsByte up i h =
    let k : ltb (hex_letter up i) 256 ≡ true =
      passes-at (λ j. ltb (hex_letter up j) 256) 16 i (small_letters up) h in
    ground (arith, k)

hex_encode-AreBytes :
    (input : List ℕ) (up : Bool) → AreBytes input → AreBytes (hex_encode_optimized input up)
unfolding hex_encode_optimized
hex_encode-AreBytes [] up h = tt
hex_encode-AreBytes (b ∷ input) up h = (
  hex_letter-IsByte up (b / 16) (omega (arith, h.0)),
  (hex_letter-IsByte up (b % 16) (omega arith), hex_encode-AreBytes input up h.1),
)

-- The transformer's `inverse` undoes its `transform`, in either case of letters, on every byte
-- string.
pub inverse-transform :
    (input : List ℕ) (up : Bool) → AreBytes input → (transform up input >>= inverse) ≡ ok input
unfolding transform
inverse-transform input up h =
    rw
      (
        transform_loop-eq input up,
        ← hex_decode-eq-inverse (hex_encode_optimized input up) (hex_encode-AreBytes input up h),
      )
      (hex_decode-hex_encode input up h)
