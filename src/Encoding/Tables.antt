-- ===== src/Encoding/Tables.antt =====
-- The tables of core/transform/src/encoding.cpp. A table entry is an `int8_t`: -1 for a byte that
-- is no digit, and in the Base64 tables -2 for the padding sign.
use Prim.Native.Char.{code}
use Prim.Native.String.{String}
use ipb.Base.{ℕ, Bool, List, [], ◌∷◌, ◌++◌, get_or, replicate, if◌then◌else◌, ltb, ◌+◌}
use ipb.Base.Int.{ℤ, pos, negsuc}

-- The bytes of an ASCII literal.
abbrev codes : String → List ℕ
codes String.[] = []
codes (String.◌∷◌ c s) = code c ∷ codes s

abbrev bad : ℤ
bad = negsuc 0

abbrev skip : ℤ
skip = negsuc 1

-- `n` entries from `i` on that count up.
abbrev counting : ℕ → ℕ → List ℤ
counting i ℕ.zero = []
counting i (ℕ.suc n) = pos i ∷ counting (i + 1) n

-- HEX_LOWER_ALPHABET and HEX_UPPER_ALPHABET at an index.
unfoldable pub hex_letter : Bool → ℕ → ℕ
hex_letter uppercase i =
    get_or (if uppercase then codes "0123456789ABCDEF" else codes "0123456789abcdef") i 0

-- HEX_DECODE_TABLE, by runs of equal or rising entries.
abbrev hex_decode_table : List ℤ
hex_decode_table =
    replicate 48 bad
    ++ (counting 0 10
        ++ (replicate 7 bad
            ++ (counting 10 6 ++ (replicate 26 bad ++ (counting 10 6 ++ replicate 153 bad)))))

unfoldable pub hex_entry : ℕ → ℤ
hex_entry c = get_or hex_decode_table c bad

-- The alphabet of a variant (BASE64_URL_ALPHABET, or the literal of the standard one) at an index.
unfoldable pub letter : Bool → ℕ → ℕ
letter url_safe i =
    get_or
      (if url_safe
        then codes "ABCDEFGHIJKLMNOPQRSTUVWXYZabcdefghijklmnopqrstuvwxyz0123456789-_"
        else codes "ABCDEFGHIJKLMNOPQRSTUVWXYZabcdefghijklmnopqrstuvwxyz0123456789+/")
      i 0

-- BASE64_URL_DECODE_TABLE below 128, by runs.
abbrev url_decode_table : List ℤ
url_decode_table =
    replicate 45 bad
    ++ (pos 62
        ∷ (replicate 2 bad
            ++ (counting 52 10
                ++ (replicate 3 bad
                    ++ (skip
                        ∷ (replicate 3 bad
                            ++ (counting 0 26
                                ++ (replicate 4 bad
                                    ++ (pos 63
                                        ∷ (bad ∷ (counting 26 26 ++ replicate 5 bad)))))))))))

-- The literal of `base64_decode_optimized`, by runs.
abbrev standard_decode_table : List ℤ
standard_decode_table =
    replicate 43 bad
    ++ (pos 62
        ∷ (replicate 3 bad
            ++ (pos 63
                ∷ (counting 52 10
                    ++ (replicate 3 bad
                        ++ (skip
                            ∷ (replicate 3 bad
                                ++ (counting 0 26
                                    ++ (replicate 6 bad
                                        ++ (counting 26 26 ++ replicate 5 bad))))))))))

-- `(c < 128) ? decode_table[c] : -1`
unfoldable pub decode_entry : Bool → ℕ → ℤ
decode_entry url_safe c =
    if ltb c 128
    then get_or (if url_safe then url_decode_table else standard_decode_table) c bad
    else bad
