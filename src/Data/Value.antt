-- ===== src/Data/Value.antt =====
-- `Value` of core/common/include/ipb/common/data_point.hpp and core/common/src/data_point.cpp: a tagged
-- byte string, kept inline up to 56 bytes and in a heap block beyond. Integers are laid out as on a
-- little-endian machine with an 8-byte size_t.
pub mod Kind
pub mod Storing
pub mod Serial
pub mod Overflow
use ipb.Base.{
  ℕ, ◌+◌, ◌-◌, ◌%◌, ◌^◌, Bool, true, false, ◌&&◌, List, [], ◌∷◌, ◌++◌, Option, none, some,
  if◌then◌else◌, leb, ltb, ◌==◌, length, take, drop,
}
use ipb.Base.Bytes.{le_bytes, from_le}

-- The union: the bytes written to the inline array, the block that `external_data_` owns, or a
-- `unique_ptr` that was destroyed (or never made) and not replaced.
pub data Storage : Type 0 where
  inline : List ℕ → Storage
  external : List ℕ → Storage
  dangling : Storage

pub record Value : Type 0 where
  pub kind : ℕ
  pub size : ℕ
  pub storage : Storage

abbrev pub inline_size : ℕ
inline_size = 56

-- `Value()`; `cleanup` also ends here, once it has freed a block.
abbrev pub empty_value : Value
empty_value = record { kind = Kind.empty; size = 0; storage = inline [] }

-- `size_ <= INLINE_SIZE ? inline_data_ : external_data_.get()`, and the copy into the member chosen.
unfoldable pub store : List ℕ → Storage
store bytes = if leb (length bytes) inline_size then inline bytes else external bytes

unfoldable pub make : ℕ → List ℕ → Value
make kind bytes = record { kind = kind; size = length bytes; storage = store bytes }

-- `set_string_view` and `set_binary`; what was stored before is freed.
pub set_string_view : List ℕ → Value → Value
set_string_view text v = make Kind.string text

pub set_binary : List ℕ → Value → Value
set_binary bytes v = make Kind.binary bytes

-- `set_impl<T>` for an integer or floating type of `width` bytes, given by its bit pattern.
pub set_bits : ℕ → ℕ → ℕ → Value → Value
set_bits kind width bits v = make kind (le_bytes width bits)

-- The stored bytes, where there are any.
abbrev pub stored : Storage → Option (List ℕ)
stored (inline bytes) = some bytes
stored (external bytes) = some bytes
stored dangling = none

abbrev pub bytes_or_nil : Option (List ℕ) → List ℕ
bytes_or_nil none = []
bytes_or_nil (some bytes) = bytes

-- `get_impl<T>`: 0 where the type or the size is not T's.
pub get_bits : ℕ → ℕ → Value → ℕ
get_bits kind width v =
    if v.kind == kind && v.size == width
    then from_le (take width (bytes_or_nil (stored v.storage)))
    else 0

-- `as_string_view` and `as_binary`
pub as_string_view : Value → List ℕ
as_string_view v =
    if v.kind == Kind.string then take v.size (bytes_or_nil (stored v.storage)) else []

pub as_binary : Value → List ℕ
as_binary v = if v.kind == Kind.binary then take v.size (bytes_or_nil (stored v.storage)) else []

-- `copy_from`: the bytes are copied into the member that the size asks for.
pub copy_from : Value → Value
copy_from other = record {
  kind = other.kind;
  size = other.size;
  storage =
      let bytes = take other.size (bytes_or_nil (stored other.storage)) in
      if leb other.size inline_size then inline bytes else external bytes;
}

-- `move_from`: inline bytes are copied, a block changes hands. The other value is left empty.
pub move_from : Value → Value × Value
move_from other = (
  copy_from other,
  record {
    kind = Kind.empty;
    size = 0;
    storage = if leb other.size inline_size then other.storage else dangling;
  },
)

-- `serialized_size`
abbrev pub serialized_size : Value → ℕ
serialized_size v = 1 + 8 + v.size

-- The bytes that `serialize` writes.
unfoldable pub encode : Value → List ℕ
encode v = v.kind ∷ (le_bytes 8 v.size ++ take v.size (bytes_or_nil (stored v.storage)))

-- `serialize`: the buffer afterwards. One that is too small is left as it was.
pub serialize : Value → List ℕ → List ℕ
serialize v buffer =
    if ltb (length buffer) (serialized_size v)
    then buffer
    else encode v ++ drop (serialized_size v) buffer

-- `deserialize` returns true or false, with the value as it then is, or `std::terminate` is called, or it
-- reads past the buffer's end.
pub data Parse : Type 0 where
  accepted : Value → Parse
  refused : Value → Parse
  terminated : Parse
  overrun : Parse

-- The member that is left after `external_data_.~unique_ptr()`, if that is called.
abbrev freed : Value → Storage
freed v = if ltb inline_size v.size then dangling else v.storage

-- The sum of sizes that is compared with the buffer's is a size_t.
abbrev pub needed : ℕ → ℕ
needed size = (9 + size) % 2 ^ 64

-- `make_unique<uint8_t[]>(size)`, then `memcpy` of `size` bytes behind the header. A block of 2^64 - 9
-- bytes or more, the sizes for which the sum wraps, is beyond any allocation: `make_unique` throws, which
-- the function's `noexcept` turns into `std::terminate`. Any other size that passes the check is one of
-- bytes that are in memory already, and there is taken to be room for them a second time.
abbrev read : ℕ → ℕ → List ℕ → Parse
read kind size rest =
    if leb (2 ^ 64 - 9) size
    then terminated
    else if leb size (length rest)
    then accepted (record { kind = kind; size = size; storage = store (take size rest) })
    else overrun

abbrev accept : ℕ → ℕ → List ℕ → List ℕ → Value → Parse
accept kind size buffer rest v =
    if ltb (length buffer) (needed size)
    then refused (record { kind = kind; size = size; storage = freed v })
    else if ltb 0 size
    then read kind size rest
    else accepted (record { kind = kind; size = size; storage = freed v })

abbrev parse : List ℕ → Value → Parse
parse [] v = refused v
parse (kind ∷ rest) v = accept kind (from_le (take 8 rest)) (kind ∷ rest) (drop 8 rest) v

pub deserialize : List ℕ → Value → Parse
deserialize buffer v = if ltb (length buffer) 9 then refused v else parse buffer v
