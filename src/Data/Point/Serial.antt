-- ===== src/Data/Point/Serial.antt =====
-- `DataPoint::serialize` and `DataPoint::deserialize` (data_point.cpp): the round trip.
use mathlib.Core.List.{append_assoc}
use ipb.Base.{
  ℕ, ◌+◌, ◌-◌, min, ◌^◌, ◌≤◌, ◌<◌, ◌≡◌, refl, ap, false, List, [], ◌∷◌, ◌++◌, some, ltb, length,
  take, drop, length-append, length-take, take-append_of_length, drop-append_of_length, arith, ◌∙◌,
  sym,
}
use ipb.Base.Bytes.{le_bytes, from_le, length-le_bytes, from_le-le_bytes}
use ipb.Data.Value
use ipb.Data.Value.{Value, Storage, inline, external, dangling, stored, bytes_or_nil}
use ipb.Data.Value.Storing.{contents, length-contents}
use ipb.Data.Value.Storing
use ipb.Data.Value.Serial
use ipb.Data.Point.{
  DataPoint, address, set_address, store_address, encode, encode_metadata, serialize,
  serialized_size, Parse, accepted, refused, terminated, overrun, read_metadata, read_value,
  read_address, deserialize,
}

-- A data point whose fields are in the ranges of their types, with a valid value and a stored address.
pub record IsValid (p : DataPoint) : Type 0 where
  pub valued : Storing.IsValid p.value
  pub small : p.value.size < 2 ^ 64 - 9
  pub addressed : p.address_size ≤ length (bytes_or_nil (stored p.address_storage))
  pub address_bits : p.address_size < 2 ^ 16
  pub time_bits : p.timestamp < 2 ^ 64
  pub protocol_bits : p.protocol_id < 2 ^ 16
  pub quality_bits : p.quality < 256
  pub sequence_bits : p.sequence_number < 2 ^ 32

-- Two data points with the same address, value and metadata.
pub record Same (p r : DataPoint) : Type 0 where
  pub of_address : address r ≡ address p
  pub of_kind : r.value.kind ≡ p.value.kind
  pub of_contents : contents r.value ≡ contents p.value
  pub of_time : r.timestamp ≡ p.timestamp
  pub of_protocol : r.protocol_id ≡ p.protocol_id
  pub of_quality : r.quality ≡ p.quality
  pub of_sequence : r.sequence_number ≡ p.sequence_number

abbrev pub Reads : DataPoint → Parse → Type 0
Reads p (accepted r) = Same p r
Reads p (refused r) = ⊥
Reads p terminated = ⊥
Reads p overrun = ⊥

field :
    (n x : ℕ) (rest : List ℕ)
    → x < 256 ^ n
    → (from_le (take n (le_bytes n x ++ rest)) ≡ x) × (drop n (le_bytes n x ++ rest) ≡ rest)
field n x rest h = (
  ap from_le (take-append_of_length n (le_bytes n x) rest (length-le_bytes n x))
      ∙ from_le-le_bytes n x h,
  drop-append_of_length n (le_bytes n x) rest (length-le_bytes n x),
)

one_byte : (b : ℕ) → from_le (b ∷ []) ≡ b
unfolding from_le
one_byte b = omega arith

read_metadata-encode :
    (p q : DataPoint) (tail : List ℕ)
    → IsValid p
    → read_metadata
        (le_bytes 8 p.timestamp
          ++ (le_bytes 2 p.protocol_id ++ (p.quality ∷ (le_bytes 4 p.sequence_number ++ tail))))
        q
      ≡ accepted (record q {
        timestamp = p.timestamp;
        protocol_id = p.protocol_id;
        quality = p.quality;
        sequence_number = p.sequence_number;
      })
unfolding read_metadata
read_metadata-encode p q tail v =
    let s = le_bytes 4 p.sequence_number ++ tail in
    let m = le_bytes 2 p.protocol_id ++ (p.quality ∷ s) in
    let f8 = field 8 p.timestamp m (omega (arith, v.time_bits)) in
    let f2 = field 2 p.protocol_id (p.quality ∷ s) (omega (arith, v.protocol_bits)) in
    let f4 = field 4 p.sequence_number tail (omega (arith, v.sequence_bits)) in
    let long : length (le_bytes 8 p.timestamp ++ m) ≡ 15 + length tail = omega (
      arith,
      length-append (le_bytes 8 p.timestamp) m,
      length-append (le_bytes 2 p.protocol_id) (p.quality ∷ s),
      length-append (le_bytes 4 p.sequence_number) tail,
      length-le_bytes 8 p.timestamp,
      length-le_bytes 2 p.protocol_id,
      length-le_bytes 4 p.sequence_number,
    ) in
    let enough : ltb (length (le_bytes 8 p.timestamp ++ m)) 15 ≡ false = ground arith in
    rw (enough, f8.0, f8.1, f2.0, f2.1, one_byte p.quality, f4.0)

encode_metadata-append :
    (p : DataPoint) (tail : List ℕ)
    → encode_metadata p ++ tail
      ≡ le_bytes 8 p.timestamp
        ++ (le_bytes 2 p.protocol_id ++ (p.quality ∷ (le_bytes 4 p.sequence_number ++ tail)))
unfolding encode_metadata
encode_metadata-append p tail =
    rw
      (
        append_assoc (le_bytes 8 p.timestamp)
            (le_bytes 2 p.protocol_id ++ (p.quality ∷ le_bytes 4 p.sequence_number)) tail,
        append_assoc (le_bytes 2 p.protocol_id) (p.quality ∷ le_bytes 4 p.sequence_number) tail,
      )
      refl

length-encode_value : (v : Value) → Storing.IsValid v → length (Value.encode v) ≡ 9 + v.size
unfolding Value.encode
length-encode_value v h = omega (
  arith,
  length-append (le_bytes 8 v.size) (contents v),
  length-le_bytes 8 v.size,
  length-contents v h,
)

drop_value :
    (v u : Value) (rest : List ℕ)
    → Storing.IsValid v
    → u.size ≡ v.size
    → drop (Value.serialized_size u) (Value.encode v ++ rest) ≡ rest
drop_value v u rest h e =
    let long : length (Value.encode v) ≡ Value.serialized_size u =
      omega (arith, length-encode_value v h) in
    drop-append_of_length (Value.serialized_size u) (Value.encode v) rest long

read_value-Reads :
    (p q : DataPoint) (tail : List ℕ) (found : Value.Parse)
    → IsValid p
    → address q ≡ address p
    → Serial.Reads p.value found
    → Reads p (read_value (Value.encode p.value ++ (encode_metadata p ++ tail)) q found)
unfolding read_value address
read_value-Reads p q tail (Value.accepted u) v a found =
    rw
      (
        drop_value p.value u (encode_metadata p ++ tail) v.valued found.1,
        encode_metadata-append p tail,
        read_metadata-encode p (record q { value = u }) tail v,
      )
      (record {
        of_address = a;
        of_kind = found.0;
        of_contents = found.2;
        of_time = refl;
        of_protocol = refl;
        of_quality = refl;
        of_sequence = refl;
      })
read_value-Reads p q tail (Value.refused u) v a found = absurd found
read_value-Reads p q tail Value.terminated v a found = absurd found
read_value-Reads p q tail Value.overrun v a found = absurd found

length-address : (p : DataPoint) → IsValid p → length (address p) ≡ p.address_size
unfolding address
length-address p v =
    omega (arith, length-take p.address_size (bytes_or_nil (stored p.address_storage)), v.addressed)

stored-store_address : (bytes : List ℕ) → stored (store_address bytes) ≡ some bytes
unfolding store_address
stored-store_address bytes = ground arith

take_exactly : (n : ℕ) (bytes : List ℕ) → length bytes ≡ n → take n bytes ≡ bytes
take_exactly n bytes h = ap (λ m. take m bytes) (sym h) ∙ Storing.take_all bytes

address-stored :
    (p : DataPoint) (n : ℕ) (bytes : List ℕ)
    → length bytes ≡ n
    → address (record p { address_size = n; address_storage = store_address bytes }) ≡ bytes
unfolding address
address-stored p n bytes h = rw (stored-store_address bytes) (take_exactly n bytes h)

-- `set_address` stores the first 65535 bytes of an address, inline or in a block, and `address` gives
-- them back.
pub address-set_address :
    (bytes : List ℕ) (p : DataPoint)
    → address (set_address bytes p) ≡ take (min (length bytes) 65535) bytes
unfolding set_address
address-set_address bytes p = address-stored p _ (take (min (length bytes) 65535) bytes) refl

read_address-Reads :
    (p q : DataPoint) (tail : List ℕ)
    → IsValid p
    → Reads p (
        read_address p.address_size
          (address p ++ (Value.encode p.value ++ (encode_metadata p ++ tail)))
          q)
unfolding read_address
read_address-Reads p q tail v =
    let rest = Value.encode p.value ++ (encode_metadata p ++ tail) in
    let n = length-address p v in
    rw
      (
        take-append_of_length p.address_size (address p) rest n,
        drop-append_of_length p.address_size (address p) rest n,
      )
      (read_value-Reads p _ tail _ v (address-stored q p.address_size (address p) n)
        (Serial.deserialize-encode p.value q.value (encode_metadata p ++ tail) v.valued v.small))

encode-append :
    (p : DataPoint) (tail : List ℕ)
    → encode p ++ tail
      ≡ le_bytes 2 p.address_size
        ++ (address p ++ (Value.encode p.value ++ (encode_metadata p ++ tail)))
unfolding encode
encode-append p tail =
    rw
      (
        append_assoc (le_bytes 2 p.address_size)
            (address p ++ (Value.encode p.value ++ encode_metadata p)) tail,
        append_assoc (address p) (Value.encode p.value ++ encode_metadata p) tail,
        append_assoc (Value.encode p.value) (encode_metadata p) tail,
      )
      refl

-- A data point serialized into a buffer that is large enough, read back by `deserialize` into any data
-- point, is accepted and gives the same address, type, contents and metadata. The fields are in the
-- ranges of their types, and the value's size is below 2^64 - 9.
pub deserialize_point-serialize :
    (p q : DataPoint) (buffer : List ℕ)
    → IsValid p
    → serialized_size p ≤ length buffer
    → Reads p (deserialize (serialize p buffer) q)
unfolding deserialize serialize
deserialize_point-serialize p q buffer v fits =
    let tail = drop (serialized_size p) buffer in
    let rest = address p ++ (Value.encode p.value ++ (encode_metadata p ++ tail)) in
    let room : ltb (length buffer) (serialized_size p) ≡ false = ground arith in
    let head = field 2 p.address_size rest (omega (arith, v.address_bits)) in
    let long : length (le_bytes 2 p.address_size ++ rest) ≡ 2 + length rest =
      omega
        (arith, length-append (le_bytes 2 p.address_size) rest, length-le_bytes 2 p.address_size) in
    let longer : p.address_size ≤ length rest = omega (
      arith,
      length-append (address p) (Value.encode p.value ++ (encode_metadata p ++ tail)),
      length-address p v,
    ) in
    let two : ltb (length (le_bytes 2 p.address_size ++ rest)) 2 ≡ false = ground arith in
    let enough : ltb (length (le_bytes 2 p.address_size ++ rest)) (2 + p.address_size) ≡ false =
      ground arith in
    rw (room, encode-append p tail, two, head.0, enough, head.1) (read_address-Reads p q tail v)
