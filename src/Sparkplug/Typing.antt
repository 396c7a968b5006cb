-- ===== src/Sparkplug/Typing.antt =====
-- What `SparkplugPayload::decode` (sparkplug_payload.cpp) returns, whatever the bytes: each metric's value
-- is of its datatype.
use ipb.Base.{
  ℕ, zero, suc, ◌^◌, ◌≤◌, ◌<◌, ◌≡◌, refl, ◌⊎◌, inl, inr, Bool, List, [], ◌∷◌, Option, none, some,
  if◌then◌else◌, ltb, ◌==◌, length, take, drop, All, All-take, All-drop, arith, if_cases,
}
use mathlib.Core.Path.{subst}
use ipb.Base.Bytes.{AreBytes, IsByte}
use ipb.Base.BigEndian.{from_be, from_be-take-lt}
use ipb.Sparkplug.Types
use ipb.Sparkplug.Decoder.{
  MetricValue, boolean, int8, int16, int32, int64, uint8, uint16, uint32, uint64, float, double,
  string, bytes, Metric, Payload, unread, read_string, read_sized, read_bytes, read_text,
  read_value, read_name, read_fields, read_labelled, read_metric, read_metrics, decode,
}

-- The value is the datatype's alternative, its number within the datatype's width, its bytes bytes.
abbrev pub IsOfType : ℕ → MetricValue → Type 0
IsOfType d (boolean b) = d ≡ Types.boolean
IsOfType d (int8 x) = (d ≡ Types.int8) × (x < 2 ^ 8)
IsOfType d (int16 x) = (d ≡ Types.int16) × (x < 2 ^ 16)
IsOfType d (int32 x) = (d ≡ Types.int32) × (x < 2 ^ 32)
IsOfType d (int64 x) = (d ≡ Types.int64) × (x < 2 ^ 64)
IsOfType d (uint8 x) = (d ≡ Types.uint8) × (x < 2 ^ 8)
IsOfType d (uint16 x) = (d ≡ Types.uint16) × (x < 2 ^ 16)
IsOfType d (uint32 x) = (d ≡ Types.uint32) × (x < 2 ^ 32)
IsOfType d (uint64 x) = (d ≡ Types.uint64) × (x < 2 ^ 64)
IsOfType d (float x) = (d ≡ Types.float) × (x < 2 ^ 32)
IsOfType d (double x) = (d ≡ Types.double) × (x < 2 ^ 64)
IsOfType d (string text) = ((d ≡ Types.string) ⊎ (d ≡ Types.text)) × AreBytes text
IsOfType d (bytes block) = (d ≡ Types.bytes) × AreBytes block

-- What a switch leaves: a value of the datatype or none read, and bytes.
abbrev IsRead : ℕ → MetricValue × Bool × List ℕ → Type 0
IsRead d (value, is_null, rest) = ((value ≡ unread) ⊎ IsOfType d value) × AreBytes rest

read_sized-IsRead :
    (d n : ℕ) (make : ℕ → MetricValue) (rest : List ℕ)
    → AreBytes rest
    → ((x : ℕ) → x < 256 ^ n → IsOfType d (make x))
    → IsRead d (read_sized n make rest)
unfolding read_sized
read_sized-IsRead d n make rest h typed =
    if_cases (IsRead d) (ltb (length rest) n) (λ e. (inl refl, h))
      (λ e. (
        inr (typed (from_be (take n rest)) (from_be-take-lt n rest h (ground arith))),
        All-drop IsByte n rest h,
      ))

-- What `read_string` leaves.
read_string-AreBytes :
    (rest : List ℕ)
    → AreBytes rest
    → let (text, left) = read_string rest in AreBytes text × AreBytes left
unfolding read_string
read_string-AreBytes rest h =
    let behind = All-drop IsByte 4 rest h in
    if_cases (λ p. let (text, left) = p in AreBytes text × AreBytes left) (ltb (length rest) 4)
      (λ e. (_, h))
      (λ e.
        if_cases (λ p. let (text, left) = p in AreBytes text × AreBytes left)
          (ltb (length (drop 4 rest)) (from_be (take 4 rest))) (λ f. (_, behind))
          (λ f. (
            All-take IsByte (from_be (take 4 rest)) (drop 4 rest) behind,
            All-drop IsByte (from_be (take 4 rest)) (drop 4 rest) behind,
          )))

read_text-IsRead :
    (d : ℕ) (rest : List ℕ)
    → AreBytes rest
    → (d ≡ Types.string) ⊎ (d ≡ Types.text)
    → IsRead d (read_text rest)
unfolding read_text
read_text-IsRead d rest h k =
    let (text, left) = read_string-AreBytes rest h in (inr (k, text), left)

read_bytes-IsRead :
    (d : ℕ) (rest : List ℕ) → AreBytes rest → d ≡ Types.bytes → IsRead d (read_bytes rest)
unfolding read_bytes
read_bytes-IsRead d rest h k =
    let behind = All-drop IsByte 4 rest h in
    if_cases (IsRead d) (ltb (length rest) 4) (λ e. (inl refl, h))
      (λ e.
        if_cases (IsRead d) (ltb (length (drop 4 rest)) (from_be (take 4 rest)))
          (λ f. (inl refl, behind))
          (λ f. (
            inr (k, All-take IsByte (from_be (take 4 rest)) (drop 4 rest) behind),
            All-drop IsByte (from_be (take 4 rest)) (drop 4 rest) behind,
          )))

-- One more case of the switch.
case :
    (d n : ℕ) (x y : MetricValue × Bool × List ℕ)
    → (d ≡ n → IsRead d x)
    → IsRead d y
    → IsRead d (if d == n then x else y)
case d n x y f g = if_cases (IsRead d) (d == n) (λ e. f (ground arith)) (λ e. g)

read_value-IsRead : (d : ℕ) (rest : List ℕ) → AreBytes rest → IsRead d (read_value d rest)
unfolding read_value
read_value-IsRead d rest h =
    case d Types.boolean _ _ (λ k. read_sized-IsRead d 1 _ rest h (λ x small. k))
      (case d Types.int8 _ _ (λ k. read_sized-IsRead d 1 _ rest h (λ x small. (k, small)))
        (case d Types.int16 _ _ (λ k. read_sized-IsRead d 2 _ rest h (λ x small. (k, small)))
          (case d Types.int32 _ _ (λ k. read_sized-IsRead d 4 _ rest h (λ x small. (k, small)))
            (case d Types.int64 _ _ (λ k. read_sized-IsRead d 8 _ rest h (λ x small. (k, small)))
              (case d Types.uint8 _ _ (λ k. read_sized-IsRead d 1 _ rest h (λ x small. (k, small)))
                (case d Types.uint16 _ _
                  (λ k. read_sized-IsRead d 2 _ rest h (λ x small. (k, small)))
                  (case d Types.uint32 _ _
                    (λ k. read_sized-IsRead d 4 _ rest h (λ x small. (k, small)))
                    (case d Types.uint64 _ _
                      (λ k. read_sized-IsRead d 8 _ rest h (λ x small. (k, small)))
                      (case d Types.float _ _
                        (λ k. read_sized-IsRead d 4 _ rest h (λ x small. (k, small)))
                        (case d Types.double _ _
                          (λ k. read_sized-IsRead d 8 _ rest h (λ x small. (k, small)))
                          (case d Types.string _ _ (λ k. read_text-IsRead d rest h (inl k))
                            (case d Types.text _ _ (λ k. read_text-IsRead d rest h (inr k))
                              (case d Types.bytes _ _ (λ k. read_bytes-IsRead d rest h k)
                                (inl refl, h))))))))))))))

pub IsTyped : Metric → Type 0
IsTyped m = (m.value ≡ unread) ⊎ IsOfType m.datatype m.value

-- What a step of the loop leaves.
abbrev IsNextTyped : Option (Metric × List ℕ) → Type 0
IsNextTyped none = Unit
IsNextTyped (some (m, rest)) = IsTyped m × AreBytes rest

read_fields-IsNextTyped :
    (name : List ℕ) (alias : ℕ) (rest : List ℕ)
    → AreBytes rest
    → IsNextTyped (read_fields name alias rest)
unfolding read_fields IsTyped
read_fields-IsNextTyped name alias rest h =
    if_cases IsNextTyped (ltb (length rest) 4) (λ e. _)
      (λ e. read_value-IsRead (from_be (take 4 rest)) (drop 4 rest) (All-drop IsByte 4 rest h))

read_metric-IsNextTyped :
    (flag : ℕ) (rest : List ℕ) → AreBytes rest → IsNextTyped (read_metric flag rest)
unfolding read_metric read_name
read_metric-IsNextTyped flag rest h =
    if_cases (λ o. IsNextTyped (read_labelled o)) (flag == 0)
      (λ e.
        let (name, left) = read_string rest in
        let (name_bytes, left_bytes) = read_string-AreBytes rest h in
        read_fields-IsNextTyped name 0 left left_bytes)
      (λ e.
        if_cases (λ o. IsNextTyped (read_labelled o)) (ltb (length rest) 8) (λ f. _)
          (λ f.
            read_fields-IsNextTyped [] (from_be (take 8 rest)) (drop 8 rest)
              (All-drop IsByte 8 rest h)))

abbrev AreTyped : ℕ → List Metric → Type 0
AreTyped n metrics = All IsTyped metrics × (length metrics ≤ n)

abbrev metrics_of : ℕ → Option (Metric × List ℕ) → List Metric
metrics_of n none = []
metrics_of n (some (m, rest)) = m ∷ read_metrics n rest

metrics_of-AreTyped :
    (n : ℕ) (o : Option (Metric × List ℕ))
    → IsNextTyped o
    → ((rest : List ℕ) → AreBytes rest → AreTyped n (read_metrics n rest))
    → AreTyped (suc n) (metrics_of n o)
metrics_of-AreTyped n none k ih = (_, omega arith)
metrics_of-AreTyped n (some (m, rest)) (km, kr) ih =
    let (typed, few) = ih rest kr in ((km, typed), omega (arith, few))

read_metrics-AreTyped : (n : ℕ) (rest : List ℕ) → AreBytes rest → AreTyped n (read_metrics n rest)
unfolding read_metrics
read_metrics-AreTyped zero rest h = (_, omega arith)
read_metrics-AreTyped (suc n) [] h = (_, omega arith)
read_metrics-AreTyped (suc n) (flag ∷ rest) (hf, h) =
    metrics_of-AreTyped n (read_metric flag rest) (read_metric-IsNextTyped flag rest h)
      (read_metrics-AreTyped n)

abbrev IsDecoded : Option Payload → Type 0
IsDecoded none = Unit
IsDecoded (some p) = AreTyped 10000 p.metrics

decode-IsDecoded : (buffer : List ℕ) → AreBytes buffer → IsDecoded (decode buffer)
unfolding decode
decode-IsDecoded buffer h =
    let counted = drop 8 (drop 8 buffer) in
    let count = from_be (take 4 counted) in
    let behind =
      All-drop IsByte 4 counted (All-drop IsByte 8 (drop 8 buffer) (All-drop IsByte 8 buffer h)) in
    if_cases IsDecoded (ltb (length buffer) 24) (λ f. _)
      (λ f.
        if_cases IsDecoded (ltb 10000 count) (λ g. _)
          (λ g.
            let (typed, few) = read_metrics-AreTyped count (drop 4 counted) behind in
            (typed, ground (arith, few))))

-- Whatever bytes `decode` accepts, it returns at most 10000 metrics, and each holds a value of the type
-- that its datatype names, its number within that type's width, or the value of a metric not read.
pub decode-IsTyped :
    (buffer : List ℕ) (p : Payload)
    → AreBytes buffer
    → decode buffer ≡ some p
    → All IsTyped p.metrics × (length p.metrics ≤ 10000)
decode-IsTyped buffer p h e = subst IsDecoded e (decode-IsDecoded buffer h)
