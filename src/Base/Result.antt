-- ===== src/Base/Result.antt =====
-- `Result<T>`: a value, or the `ErrorCode` of an error (the codes that the modelled code returns).

pub data ErrorCode : Type 0 where
  decoding_error : ErrorCode

pub data Result {ℓ} (A : Type ℓ) : Type ℓ where
  ok : A → Result A
  err : ErrorCode → Result A

infixl 5 ◌>>=◌
abbrev pub ◌>>=◌ {ℓ κ} : {A : Type ℓ} {B : Type κ} → Result A → (A → Result B) → Result B
ok a >>= f = f a
err e >>= f = err e
