-- ===== src/Sparkplug/RoundTrip/Values.antt =====
-- The switch on a value's type, read back (sparkplug_encoder.cpp, sparkplug_payload.cpp).
use ipb.Base.{
  ℕ, ◌%◌, ◌^◌, ◌<◌, ◌≡◌, refl, ap, ◌∙◌, inl, inr, false, not, List, ◌++◌, ltb, ◌==◌, length, take,
  drop, length-append, take-length-append, drop-length-append, arith, Bool-cases,
}
use mathlib.Core.List.{append_assoc}
use ipb.Base.BigEndian.{
  be_bytes, from_be, length-be_bytes, from_be-be_bytes_one, from_be-be_bytes_two,
  from_be-be_bytes_four, from_be-be_bytes_eight, take-be_bytes, drop-be_bytes,
}
use ipb.Data.Value.Kind
use ipb.Data.Value.{Value, get_bits, as_string_view}
use ipb.Sparkplug.Encoder.{append_string, encode_as, encode_value, data_type}
use ipb.Sparkplug.Decoder.{MetricValue, read_string, read_sized, read_text, read_value}
use ipb.Base.Bytes.{AreBytes}
use ipb.Data.Value.{stored, bytes_or_nil}
use ipb.Data.Value.Storing.{get_bits-lt}
use ipb.Sparkplug.RoundTrip.Expected.{
  Encodable, bool, int8, int16, int32, int64, uint8, uint16, uint32, uint64, float32, float64,
  string, kind_of, value_as,
}

pub read_sized-be_bytes :
    (n x : ℕ) (make : ℕ → MetricValue) (rest : List ℕ)
    → from_be (be_bytes n x) ≡ x
    → read_sized n make (be_bytes n x ++ rest) ≡ (make x, false, rest)
unfolding read_sized
read_sized-be_bytes n x make rest e =
    let long : ltb (length (be_bytes n x ++ rest)) n ≡ false =
      ground (arith, length-append (be_bytes n x) rest, length-be_bytes n x) in
    rw (long, take-be_bytes n x rest, drop-be_bytes n x rest, e) refl

pub read_string-append_string :
    (text rest : List ℕ)
    → length text < 2 ^ 32
    → read_string (append_string text ++ rest) ≡ (text, rest)
unfolding read_string append_string
read_string-append_string text rest h =
    let header = be_bytes 4 (length text % 2 ^ 32) in
    let assoc : (header ++ text) ++ rest ≡ header ++ (text ++ rest) =
      append_assoc header text rest in
    let long : ltb (length (header ++ (text ++ rest))) 4 ≡ false =
      ground
        (arith, length-append header (text ++ rest), length-be_bytes 4 (length text % 2 ^ 32)) in
    let size : from_be (take 4 (header ++ (text ++ rest))) ≡ length text =
      ap from_be (take-be_bytes 4 (length text % 2 ^ 32) (text ++ rest))
      ∙ (from_be-be_bytes_four (length text % 2 ^ 32) (omega arith) ∙ omega arith) in
    let behind : drop 4 (header ++ (text ++ rest)) ≡ text ++ rest =
      drop-be_bytes 4 (length text % 2 ^ 32) (text ++ rest) in
    let enough : ltb (length (text ++ rest)) (length text) ≡ false =
      ground (arith, length-append text rest) in
    rw
      (
        assoc,
        long,
        size,
        behind,
        enough,
        take-length-append text rest,
        drop-length-append text rest,
      )
      refl

read_value-encode_as :
    (s : Encodable) (v : Value) (rest : List ℕ)
    → AreBytes (bytes_or_nil (stored v.storage))
    → length (as_string_view v) < 2 ^ 32
    → read_value (data_type (kind_of s)) (encode_as (kind_of s) v ++ rest)
      ≡ (value_as s v, false, rest)
unfolding read_value encode_as data_type read_text be_bytes
read_value-encode_as bool v rest h l = elim (Bool-cases (get_bits Kind.bool 1 v == 0)) [
  | inl e ↦ rw (e) (
      read_sized-be_bytes 1 0 (λ n. MetricValue.boolean (not (n == 0))) rest
        (from_be-be_bytes_one 0 (omega arith)))
  | inr e ↦ rw (e) (
      read_sized-be_bytes 1 1 (λ n. MetricValue.boolean (not (n == 0))) rest
        (from_be-be_bytes_one 1 (omega arith)))
]
read_value-encode_as int8 v rest h l =
    let bits = get_bits Kind.int8 1 v in
    read_sized-be_bytes 1 bits MetricValue.int8 rest
      (from_be-be_bytes_one bits (omega (arith, get_bits-lt Kind.int8 1 v h)))
read_value-encode_as int16 v rest h l =
    let bits = get_bits Kind.int16 2 v in
    read_sized-be_bytes 2 bits MetricValue.int16 rest
      (from_be-be_bytes_two bits (omega (arith, get_bits-lt Kind.int16 2 v h)))
read_value-encode_as int32 v rest h l =
    let bits = get_bits Kind.int32 4 v in
    read_sized-be_bytes 4 bits MetricValue.int32 rest
      (from_be-be_bytes_four bits (omega (arith, get_bits-lt Kind.int32 4 v h)))
read_value-encode_as int64 v rest h l =
    let bits = get_bits Kind.int64 8 v in
    read_sized-be_bytes 8 bits MetricValue.int64 rest
      (from_be-be_bytes_eight bits (omega (arith, get_bits-lt Kind.int64 8 v h)))
read_value-encode_as uint8 v rest h l =
    let bits = get_bits Kind.uint8 1 v in
    read_sized-be_bytes 1 bits MetricValue.uint8 rest
      (from_be-be_bytes_one bits (omega (arith, get_bits-lt Kind.uint8 1 v h)))
read_value-encode_as uint16 v rest h l =
    let bits = get_bits Kind.uint16 2 v in
    read_sized-be_bytes 2 bits MetricValue.uint16 rest
      (from_be-be_bytes_two bits (omega (arith, get_bits-lt Kind.uint16 2 v h)))
read_value-encode_as uint32 v rest h l =
    let bits = get_bits Kind.uint32 4 v in
    read_sized-be_bytes 4 bits MetricValue.uint32 rest
      (from_be-be_bytes_four bits (omega (arith, get_bits-lt Kind.uint32 4 v h)))
read_value-encode_as uint64 v rest h l =
    let bits = get_bits Kind.uint64 8 v in
    read_sized-be_bytes 8 bits MetricValue.uint64 rest
      (from_be-be_bytes_eight bits (omega (arith, get_bits-lt Kind.uint64 8 v h)))
read_value-encode_as float32 v rest h l =
    let bits = get_bits Kind.float32 4 v in
    read_sized-be_bytes 4 bits MetricValue.float rest
      (from_be-be_bytes_four bits (omega (arith, get_bits-lt Kind.float32 4 v h)))
read_value-encode_as float64 v rest h l =
    let bits = get_bits Kind.float64 8 v in
    read_sized-be_bytes 8 bits MetricValue.double rest
      (from_be-be_bytes_eight bits (omega (arith, get_bits-lt Kind.float64 8 v h)))
read_value-encode_as string v rest h l =
    let e : read_string (append_string (as_string_view v) ++ rest) ≡ (as_string_view v, rest) =
      read_string-append_string (as_string_view v) rest l in
    ap (λ p. let (text, rest') = p in (MetricValue.string text, false, rest')) e

pub read_value-encode_value :
    (s : Encodable) (v : Value) (rest : List ℕ)
    → v.kind ≡ kind_of s
    → AreBytes (bytes_or_nil (stored v.storage))
    → length (as_string_view v) < 2 ^ 32
    → read_value (data_type v.kind) (encode_value v ++ rest) ≡ (value_as s v, false, rest)
read_value-encode_value s v rest k h l =
    ap (λ kind. read_value (data_type kind) (encode_as kind v ++ rest)) k
    ∙ read_value-encode_as s v rest h l
