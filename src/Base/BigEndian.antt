-- ===== src/Base/BigEndian.antt =====
-- Big-endian fields of `n` bytes, as protocol code writes and reads them by shifts.
use ipb.Base.Lists.{length, take, drop, take-append_of_length, drop-append_of_length, length-take}
use ipb.Base.Bytes.{AreBytes}
use native.Mathlib.Nat.{pow-suc, mul-le-mul_right}
use Prim.Native.Nat.{ℕ, zero, suc, ◌+◌, ◌*◌, ◌/◌, ◌%◌, ◌^◌, ◌≤◌, ◌<◌}
use mathlib.Core.Path.{◌≡◌, refl, ap}
use mathlib.Core.List.{List, [], ◌∷◌, ◌++◌}
use native.Mathlib.Omega.{arith}

-- `for (i = n - 1; i >= 0; --i) push_back((value >> (i * 8)) & 0xFF)`
unfoldable pub be_bytes : ℕ → ℕ → List ℕ
be_bytes zero x = []
be_bytes (suc n) x = (x / 256 ^ n % 256) ∷ be_bytes n x

-- The bytes by decreasing shifts, joined by `|`.
unfoldable pub from_be : List ℕ → ℕ
from_be [] = 0
from_be (b ∷ bytes) = b * 256 ^ length bytes + from_be bytes

pub length-be_bytes : (n x : ℕ) → length (be_bytes n x) ≡ n
unfolding be_bytes
length-be_bytes zero x = refl
length-be_bytes (suc n) x = omega (arith, length-be_bytes n x)

pub from_be-be_bytes_one : (x : ℕ) → x < 256 → from_be (be_bytes 1 x) ≡ x
unfolding be_bytes from_be
from_be-be_bytes_one x h = omega arith

pub from_be-be_bytes_two : (x : ℕ) → x < 2 ^ 16 → from_be (be_bytes 2 x) ≡ x
unfolding be_bytes from_be
from_be-be_bytes_two x h = omega arith

pub from_be-be_bytes_four : (x : ℕ) → x < 2 ^ 32 → from_be (be_bytes 4 x) ≡ x
unfolding be_bytes from_be
from_be-be_bytes_four x h = omega arith

pub from_be-be_bytes_eight : (x : ℕ) → x < 2 ^ 64 → from_be (be_bytes 8 x) ≡ x
unfolding be_bytes from_be
from_be-be_bytes_eight x h = omega arith

pub take-be_bytes : (n x : ℕ) (rest : List ℕ) → take n (be_bytes n x ++ rest) ≡ be_bytes n x
take-be_bytes n x rest = take-append_of_length n (be_bytes n x) rest (length-be_bytes n x)

pub drop-be_bytes : (n x : ℕ) (rest : List ℕ) → drop n (be_bytes n x ++ rest) ≡ rest
drop-be_bytes n x rest = drop-append_of_length n (be_bytes n x) rest (length-be_bytes n x)

pub from_be-take-lt :
    (n : ℕ) (bytes : List ℕ) → AreBytes bytes → n ≤ length bytes → from_be (take n bytes) < 256 ^ n
unfolding from_be
from_be-take-lt zero bytes h l = omega arith
from_be-take-lt (suc n) [] h l = absurd (omega arith)
from_be-take-lt (suc n) (b ∷ bytes) (hb, h) l =
    let size : length (take n bytes) ≡ n = omega (arith, length-take n bytes) in
    let scaled : b * 256 ^ length (take n bytes) ≡ b * 256 ^ n = ap (λ k. b * 256 ^ k) size in
    let most : b * 256 ^ n ≤ 255 * 256 ^ n = mul-le-mul_right (256 ^ n) (omega arith) in
    omega (arith, from_be-take-lt n bytes h (omega arith), pow-suc 256 n, scaled, most)
