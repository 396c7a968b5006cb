-- ===== src/Encoding/Examples.antt =====
-- The laws of core/transform/src/encoding.cpp at concrete inputs.
use ipb.Base.{ℕ, ◌≡◌, true, false, List, [], ◌∷◌, none, arith}
use ipb.Base.Bytes.{AreBytes}
use ipb.Base.Result.{ok}
use ipb.Encoding.Base64
use ipb.Encoding.Base64.RoundTrip.{base64_decode-base64_encode}

abbrev sample : List ℕ
sample = 0 ∷ (171 ∷ (255 ∷ (61 ∷ [])))

sample-AreBytes : AreBytes sample
sample-AreBytes = (omega arith, (omega arith, (omega arith, (omega arith, tt))))

base64_decode-base64_encode_example :
    Base64.base64_decode_optimized none
      (Base64.base64_encode_optimized none sample false true)
      false
    ≡ ok sample
base64_decode-base64_encode_example =
    base64_decode-base64_encode none false true sample tt sample-AreBytes
