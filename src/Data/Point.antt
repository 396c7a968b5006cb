-- ===== src/Data/Point.antt =====
-- `DataPoint` of core/common/include/ipb/common/data_point.hpp and core/common/src/data_point.cpp: an
-- address, a value, and metadata. The timestamp is the bit pattern of its int64_t nanoseconds.
pub mod Serial
use ipb.Base.{
  ℕ, ◌+◌, ◌%◌, ◌^◌, min, ◌≡◌, Bool, true, false, ◌&&◌, List, [], ◌∷◌, ◌++◌, Option, none, some,
  if◌then◌else◌, leb, ltb, ◌==◌, length, take, drop,
}
use ipb.Base.Bytes.{le_bytes, from_le}
use ipb.Data.Value
use ipb.Data.Value.{Value, Storage, inline, external, dangling, stored, bytes_or_nil, empty_value}

pub record DataPoint : Type 0 where
  pub value : Value
  pub timestamp : ℕ
  pub address_size : ℕ
  pub address_storage : Storage
  pub protocol_id : ℕ
  pub quality : ℕ
  pub sequence_number : ℕ

abbrev pub max_inline_address : ℕ
max_inline_address = 32

-- The copy into the member of the union that the size asks for.
unfoldable pub store_address : List ℕ → Storage
store_address bytes = if leb (length bytes) max_inline_address then inline bytes else external bytes

-- `set_address` keeps at most 65535 bytes.
pub set_address : List ℕ → DataPoint → DataPoint
set_address address p =
    let kept = take (min (length address) 65535) address in
    record p { address_size = length kept; address_storage = store_address kept }

-- `address`
unfoldable pub address : DataPoint → List ℕ
address p = take p.address_size (bytes_or_nil (stored p.address_storage))

-- `is_valid`: GOOD is 0 and UNCERTAIN is 1.
pub is_valid : DataPoint → Bool
is_valid p = leb p.quality 1

-- `serialized_size`: a Timestamp is 8 bytes, a Quality one.
abbrev pub serialized_size : DataPoint → ℕ
serialized_size p = 2 + p.address_size + Value.serialized_size p.value + 8 + 2 + 1 + 4

-- What stands behind the value.
unfoldable pub encode_metadata : DataPoint → List ℕ
encode_metadata p =
    le_bytes 8 p.timestamp
    ++ (le_bytes 2 p.protocol_id ++ (p.quality ∷ le_bytes 4 p.sequence_number))

-- The bytes that `serialize` writes.
unfoldable pub encode : DataPoint → List ℕ
encode p = le_bytes 2 p.address_size ++ (address p ++ (Value.encode p.value ++ encode_metadata p))

-- `serialize`: the buffer afterwards. One that is too small is left as it was.
pub serialize : DataPoint → List ℕ → List ℕ
serialize p buffer =
    if ltb (length buffer) (serialized_size p)
    then buffer
    else encode p ++ drop (serialized_size p) buffer

-- `deserialize` returns true or false, with the data point as it then is, or `std::terminate` is called, or it reads
-- past the buffer.
pub data Parse : Type 0 where
  accepted : DataPoint → Parse
  refused : DataPoint → Parse
  terminated : Parse
  overrun : Parse

-- The metadata, if the rest of the buffer holds 15 bytes; each read moves the offset on.
unfoldable pub read_metadata : List ℕ → DataPoint → Parse
read_metadata rest p =
    let at_protocol = drop 8 rest in
    let at_quality = drop 2 at_protocol in
    let at_sequence = drop 1 at_quality in
    if ltb (length rest) 15
    then refused p
    else accepted (record p {
      timestamp = from_le (take 8 rest);
      protocol_id = from_le (take 2 at_protocol);
      quality = from_le (take 1 at_quality);
      sequence_number = from_le (take 4 at_sequence);
    })

-- The value, and what follows it.
unfoldable pub read_value : List ℕ → DataPoint → Value.Parse → Parse
read_value rest p (Value.accepted u) =
    read_metadata (drop (Value.serialized_size u) rest) (record p { value = u })
read_value rest p (Value.refused u) = refused (record p { value = u })
read_value rest p Value.terminated = terminated
read_value rest p Value.overrun = overrun

-- The address of `n` bytes, and what follows it.
unfoldable pub read_address : ℕ → List ℕ → DataPoint → Parse
unfolding read_value
read_address n rest p =
    let q = record p { address_size = n; address_storage = store_address (take n rest) } in
    read_value (drop n rest) q (Value.deserialize (drop n rest) p.value)

-- The address that is left after `external_address_.~unique_ptr()`, if that is called.
abbrev freed_address : DataPoint → Storage
freed_address p = if ltb max_inline_address p.address_size then dangling else p.address_storage

pub deserialize : List ℕ → DataPoint → Parse
deserialize buffer p =
    let n = from_le (take 2 buffer) in
    if ltb (length buffer) 2
    then refused p
    else if ltb (length buffer) (2 + n)
    then refused (record p { address_storage = freed_address p })
    else read_address n (drop 2 buffer) p
