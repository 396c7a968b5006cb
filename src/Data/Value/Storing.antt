-- ===== src/Data/Value/Storing.antt =====
-- What the setters of `Value` (data_point.hpp, data_point.cpp) store, the getters give back.
use ipb.Base.{
  ℕ, zero, suc, ◌^◌, ◌≤◌, ◌<◌, ◌≡◌, refl, ap, inl, inr, Bool, true, false, ◌&&◌, List, [], ◌∷◌,
  some, if◌then◌else◌, leb, ◌==◌, ==_iff, length, take, length-take, arith, Bool-cases, ◌∙◌, sym,
}
use ipb.Base.Bytes.{AreBytes, le_bytes, from_le, length-le_bytes, from_le-le_bytes, from_le-take-lt}
use ipb.Data.Value.{
  Storage, inline, external, dangling, Value, inline_size, store, make, set_string_view, set_binary,
  set_bits, stored, bytes_or_nil, get_bits, as_string_view, as_binary, copy_from, move_from,
}
use ipb.Data.Value.Kind

-- The bytes of a value.
abbrev pub contents : Value → List ℕ
contents v = take v.size (bytes_or_nil (stored v.storage))

-- The union's live member is the one that the size asks for, and holds that many bytes.
abbrev pub IsStored : ℕ → Storage → Type 0
IsStored size (inline bytes) = (size ≤ inline_size) × (size ≤ length bytes)
IsStored size (external bytes) = (inline_size < size) × (length bytes ≡ size)
IsStored size dangling = size ≡ 0

abbrev pub IsValid : Value → Type 0
IsValid v = IsStored v.size v.storage

pub take_all : (bytes : List ℕ) → take (length bytes) bytes ≡ bytes
take_all [] = refl
take_all (b ∷ bytes) = ap (◌∷◌ b) (take_all bytes)

pub stored-store : (bytes : List ℕ) → stored (store bytes) ≡ some bytes
unfolding store
stored-store bytes = ground arith

pub store-IsStored : (bytes : List ℕ) → IsStored (length bytes) (store bytes)
unfolding store
store-IsStored bytes = elim (Bool-cases (leb (length bytes) inline_size)) [
  | inl e ↦ rw e (ground arith, omega arith)
  | inr e ↦ rw e (ground arith, refl)
]

pub contents-make : (kind : ℕ) (bytes : List ℕ) → contents (make kind bytes) ≡ bytes
unfolding make
contents-make kind bytes = rw (stored-store bytes) (take_all bytes)

make-IsValid : (kind : ℕ) (bytes : List ℕ) → IsValid (make kind bytes)
unfolding make
make-IsValid kind bytes = store-IsStored bytes

-- A text of any length comes back as it was set, from the inline array or from the heap block, and the
-- accessor of binaries finds nothing.
pub set_string_view_lem :
    (text : List ℕ) (v : Value)
    → IsValid (set_string_view text v)
      × (as_string_view (set_string_view text v) ≡ text)
      × (as_binary (set_string_view text v) ≡ [])
unfolding set_string_view as_string_view as_binary make
set_string_view_lem text v = (make-IsValid Kind.string text, contents-make Kind.string text, refl)

-- A binary of any length comes back as it was set, and the accessor of texts finds nothing.
pub set_binary_lem :
    (bytes : List ℕ) (v : Value)
    → IsValid (set_binary bytes v)
      × (as_binary (set_binary bytes v) ≡ bytes)
      × (as_string_view (set_binary bytes v) ≡ [])
unfolding set_binary as_string_view as_binary make
set_binary_lem bytes v = (make-IsValid Kind.binary bytes, contents-make Kind.binary bytes, refl)

get_bits-make :
    (kind kind' width' : ℕ) (bytes : List ℕ)
    → get_bits kind' width' (make kind bytes)
      ≡ (if kind == kind' && length bytes == width' then from_le (take width' bytes) else 0)
unfolding get_bits make
get_bits-make kind kind' width' bytes = rw (stored-store bytes)

pick :
    (a b : Bool) (m n k : ℕ)
    → (b ≡ true → m ≡ n)
    → (if a && b then m else k) ≡ (if a && b then n else k)
pick true true m n k h = h refl
pick true false m n k h = refl
pick false b m n k h = refl

-- A number of `width` bytes comes back at the type and size that it was set at, and reads as 0 at any
-- other type or size.
pub get_bits-set_bits :
    (kind width kind' width' bits : ℕ) (v : Value)
    → bits < 256 ^ width
    → get_bits kind' width' (set_bits kind width bits v)
      ≡ (if kind == kind' && width == width' then bits else 0)
unfolding set_bits
get_bits-set_bits kind width kind' width' bits v h =
    rw (get_bits-make kind kind' width' (le_bytes width bits), length-le_bytes width bits)
      (pick (kind == kind') (width == width') (from_le (take width' (le_bytes width bits))) bits 0
        λ e. rw (← (==_iff width width').0 e, from_le_all) (from_le-le_bytes width bits h))
  where
    from_le_all : take width (le_bytes width bits) ≡ le_bytes width bits
    from_le_all =
        ap (λ n. take n (le_bytes width bits)) (sym (length-le_bytes width bits))
        ∙ take_all (le_bytes width bits)

take-take : (n : ℕ) (bytes : List ℕ) → take n (take n bytes) ≡ take n bytes
take-take zero bytes = refl
take-take (suc n) [] = refl
take-take (suc n) (b ∷ bytes) = ap (◌∷◌ b) (take-take n bytes)

size-le : (n : ℕ) (s : Storage) → IsStored n s → n ≤ length (bytes_or_nil (stored s))
size-le n (inline bytes) h = h.1
size-le n (external bytes) h = omega arith
size-le n dangling h = omega arith

emptied : (n : ℕ) (s : Storage) → IsStored n s → n ≤ inline_size → IsStored 0 s
emptied n (inline bytes) h k = omega arith
emptied n (external bytes) h k = absurd (omega arith)
emptied n dangling h k = refl

-- A valid value has as many bytes as its size says.
pub length-contents : (v : Value) → IsValid v → length (contents v) ≡ v.size
length-contents v h =
    omega (arith, length-take v.size (bytes_or_nil (stored v.storage)), size-le v.size v.storage h)

-- Copies and moves leave valid values, the target with the type and bytes of the source; the source of
-- a move is empty.
pub move_from_lem :
    (v : Value)
    → IsValid v
    → let (target, source) = move_from v in
      IsValid target
      × (target.kind ≡ v.kind)
      × (contents target ≡ contents v)
      × IsValid source
      × (contents source ≡ [])
unfolding move_from copy_from
move_from_lem v h = elim (Bool-cases (leb v.size inline_size)) [
  | inl e ↦
      let small : v.size ≤ inline_size = ground arith in
      rw e (
        (small, omega (arith, length-contents v h)),
        refl,
        take-take v.size (bytes_or_nil (stored v.storage)),
        emptied v.size v.storage h small,
        refl,
      )
  | inr e ↦ rw e (
    (ground arith, length-contents v h),
    refl,
    take-take v.size (bytes_or_nil (stored v.storage)),
    refl,
    refl,
  )
]

pub get_bits-lt :
    (kind n : ℕ) (v : Value)
    → AreBytes (bytes_or_nil (stored v.storage))
    → get_bits kind n v < 256 ^ n
unfolding get_bits
get_bits-lt kind n v h = elim (Bool-cases (v.kind == kind && v.size == n)) [
  | inl e ↦ rw (e) (from_le-take-lt n (bytes_or_nil (stored v.storage)) h)
  | inr e ↦ rw (e) (omega (arith, from_le-take-lt n [] _))
]

pub length-as_string_view : (v : Value) → length (as_string_view v) ≤ v.size
unfolding as_string_view
length-as_string_view v = elim (Bool-cases (v.kind == Kind.string)) [
  | inl e ↦ rw (e) (omega (arith, length-take v.size (bytes_or_nil (stored v.storage))))
  | inr e ↦ rw (e) (omega arith)
]
