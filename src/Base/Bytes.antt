-- ===== src/Base/Bytes.antt =====
-- Bytes are numbers below 256; little-endian fields of `n` bytes, as `memcpy` writes them.
use Prim.Native.Nat.{ℕ, zero, suc, ◌+◌, ◌*◌, ◌/◌, ◌%◌, ◌^◌, ◌<◌}
use native.Mathlib.Nat.{pow-suc}
use mathlib.Core.Path.{◌≡◌, refl, sym, ap, ◌∙◌}
use mathlib.Core.Logic.{inl, inr}
use mathlib.Core.Bool.{Bool, true, false, false≢true}
use mathlib.Core.List.{List, [], ◌∷◌}
use native.Mathlib.Omega.{arith}
use ipb.Base.Tests.{if◌then◌else◌, ltb, Bool-cases}
use ipb.Base.Lists.{All, length, take}

abbrev pub IsByte : ℕ → Type 0
IsByte b = b < 256

abbrev pub AreBytes : List ℕ → Type 0
AreBytes = All IsByte

-- A test passes at each of the first `n` numbers: for tables, which are then checked by evaluation.
unfoldable pub passes : (ℕ → Bool) → ℕ → Bool
passes test zero = true
passes test (suc n) = let rest = passes test n in if test n then rest else false

pub passes-at : (test : ℕ → Bool) (n i : ℕ) → passes test n ≡ true → i < n → test i ≡ true
unfolding passes
passes-at test zero i ok small = absurd (omega arith)
passes-at test (suc n) i ok small = ground (arith, passes-at test n i)

-- `n` bytes of a number, the least first: how `memcpy` lays out an integer on a little-endian machine.
unfoldable pub le_bytes : ℕ → ℕ → List ℕ
le_bytes zero x = []
le_bytes (suc n) x = (x % 256) ∷ le_bytes n (x / 256)

unfoldable pub from_le : List ℕ → ℕ
from_le [] = 0
from_le (b ∷ bytes) = b + 256 * from_le bytes

pub length-le_bytes : (n x : ℕ) → length (le_bytes n x) ≡ n
unfolding le_bytes
length-le_bytes zero x = refl
length-le_bytes (suc n) x = omega (arith, length-le_bytes n (x / 256))

pub from_le-le_bytes : (n x : ℕ) → x < 256 ^ n → from_le (le_bytes n x) ≡ x
unfolding le_bytes from_le
from_le-le_bytes zero x h = omega arith
from_le-le_bytes (suc n) x h =
    let smaller : x / 256 < 256 ^ n = omega (arith, pow-suc 256 n) in
    omega (arith, from_le-le_bytes n (x / 256) smaller)

pub from_le-take-lt : (n : ℕ) (bytes : List ℕ) → AreBytes bytes → from_le (take n bytes) < 256 ^ n
unfolding from_le
from_le-take-lt zero bytes h = omega arith
from_le-take-lt (suc n) [] h = omega (arith, from_le-take-lt n [] h, pow-suc 256 n)
from_le-take-lt (suc n) (b ∷ bytes) (hb, h) =
    omega (arith, hb, from_le-take-lt n bytes h, pow-suc 256 n)

-- The same as a test, for bytes that are given.
abbrev pub are_bytes : List ℕ → Bool
are_bytes [] = true
are_bytes (b ∷ bytes) = let rest = are_bytes bytes in if ltb b 256 then rest else false

pub are_bytes-AreBytes : (bytes : List ℕ) → are_bytes bytes ≡ true → AreBytes bytes
are_bytes-AreBytes [] h = tt
are_bytes-AreBytes (b ∷ bytes) h = elim (Bool-cases (ltb b 256)) [
  | inl e ↦ (
    ground arith,
    are_bytes-AreBytes bytes (sym (ap (λ t. if t then are_bytes bytes else false) e) ∙ h),
  )
  | inr e ↦ absurd (false≢true (sym (ap (λ t. if t then are_bytes bytes else false) e) ∙ h))
]
