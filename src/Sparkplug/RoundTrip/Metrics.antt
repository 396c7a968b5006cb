-- ===== src/Sparkplug/RoundTrip/Metrics.antt =====
-- The loop over the metrics, and the whole payload (sparkplug_encoder.cpp, sparkplug_payload.cpp).
use ipb.Base.{
  ℕ, suc, ◌^◌, ◌≤◌, ◌<◌, ◌≡◌, refl, ap, ◌∙◌, inl, inr, Bool, true, false, ◌&&◌, List, [], ◌∷◌, ◌++◌,
  map, none, some, if◌then◌else◌, ltb, length, length-append, arith, Bool-cases,
}
use mathlib.Core.List.{append_assoc}
use ipb.Base.BigEndian.{
  be_bytes, length-be_bytes, from_be-be_bytes_four, from_be-be_bytes_eight, take-be_bytes,
  drop-be_bytes,
}
use ipb.Data.Value.{Value, as_string_view}
use ipb.Sparkplug.Encoder.{
  MetricDefinition, append_string, encode_value, encode_name, encode_metric_value, encode_values,
  data_type,
}
use ipb.Sparkplug.Decoder.{
  Metric, read_fields, read_value, read_name, read_labelled, read_metric, read_metrics,
}
use mathlib.Core.List.{append_assoc}
use ipb.Base.{All}
use ipb.Base.Bytes.{AreBytes}
use ipb.Data.Value.{stored, bytes_or_nil}
use ipb.Sparkplug.RoundTrip.Expected.{Encodable, kind_of, value_as, IsSendable, sent, received}
use ipb.Sparkplug.RoundTrip.Values.{read_string-append_string, read_value-encode_value}

pub data_type-lt : (kind : ℕ) → data_type kind < 2 ^ 32
unfolding data_type
data_type-lt kind = ground arith

-- The flag that stands before a metric, and what follows it.
abbrev pub flag_of : Bool → ℕ
flag_of by_alias = if by_alias then 1 else 0

abbrev pub label_of : MetricDefinition → Bool → List ℕ
label_of def by_alias = if by_alias then be_bytes 8 def.alias else append_string def.name

encode_name_lem :
    (def : MetricDefinition) (use_alias : Bool)
    → encode_name def use_alias
      ≡ flag_of (use_alias && ltb 0 def.alias) ∷ label_of def (use_alias && ltb 0 def.alias)
unfolding encode_name
encode_name_lem def use_alias = elim (Bool-cases (use_alias && ltb 0 def.alias)) [
  | inl e ↦ rw (e) refl
  | inr e ↦ rw (e) refl
]

pub read_name-append_string :
    (text rest : List ℕ)
    → length text < 2 ^ 32
    → read_name 0 (append_string text ++ rest) ≡ some (text, 0, rest)
unfolding read_name
read_name-append_string text rest h =
    ap (λ p. let (name, rest') = p in some (name, 0, rest')) (read_string-append_string text rest h)

read_name-label_of :
    (def : MetricDefinition) (by_alias : Bool) (rest : List ℕ)
    → length def.name < 2 ^ 32
    → def.alias < 2 ^ 64
    → read_name (flag_of by_alias) (label_of def by_alias ++ rest)
      ≡ some (if by_alias then [] else def.name, if by_alias then def.alias else 0, rest)
unfolding read_name
read_name-label_of def true rest hn ha =
    let long : ltb (length (be_bytes 8 def.alias ++ rest)) 8 ≡ false =
      ground (arith, length-append (be_bytes 8 def.alias) rest, length-be_bytes 8 def.alias) in
    rw
      (
        long,
        take-be_bytes 8 def.alias rest,
        drop-be_bytes 8 def.alias rest,
        from_be-be_bytes_eight def.alias ha,
      )
      refl
read_name-label_of def false rest hn ha = read_name-append_string def.name rest hn

read_fields-encode :
    (s : Encodable) (v : Value) (datatype alias : ℕ) (name rest : List ℕ)
    → v.kind ≡ kind_of s
    → datatype ≡ data_type v.kind
    → AreBytes (bytes_or_nil (stored v.storage))
    → length (as_string_view v) < 2 ^ 32
    → read_fields name alias (be_bytes 4 datatype ++ (encode_value v ++ rest))
      ≡ some (
        record {
          name = name;
          alias = alias;
          datatype = datatype;
          is_null = false;
          value = value_as s v;
        },
        rest,
      )
unfolding read_fields
read_fields-encode s v datatype alias name rest hk hd hb hs =
    let tail = encode_value v ++ rest in
    let long : ltb (length (be_bytes 4 datatype ++ tail)) 4 ≡ false =
      ground (arith, length-append (be_bytes 4 datatype) tail, length-be_bytes 4 datatype) in
    let small : datatype < 2 ^ 32 = rw (hd) (data_type-lt v.kind) in
    let value : read_value datatype tail ≡ (value_as s v, false, rest) =
      ap (λ d. read_value d tail) hd ∙ read_value-encode_value s v rest hk hb hs in
    rw
      (
        long,
        take-be_bytes 4 datatype tail,
        drop-be_bytes 4 datatype tail,
        from_be-be_bytes_four datatype small,
        value,
      )
      refl

pub read_metric-encode :
    (m : Encodable × MetricDefinition × Value) (use_aliases : Bool) (rest : List ℕ)
    → IsSendable m
    → let (s, def, v) = m in
      let by_alias = use_aliases && ltb 0 def.alias in
      read_metric
        (flag_of by_alias)
        (label_of def by_alias ++ (be_bytes 4 def.datatype ++ (encode_value v ++ rest)))
      ≡ some (received use_aliases m, rest)
unfolding read_metric
read_metric-encode (s, def, v) use_aliases rest (hk, hd, hb, hs, hn, ha) =
    let by_alias = use_aliases && ltb 0 def.alias in
    let tail = be_bytes 4 def.datatype ++ (encode_value v ++ rest) in
    ap read_labelled (read_name-label_of def by_alias tail hn ha)
    ∙ read_fields-encode s v def.datatype (if by_alias then def.alias else 0)
        (if by_alias then [] else def.name) rest hk hd hb hs

-- One metric in front of the bytes that follow, with its flag in front.
pub encode_metric_value_lem :
    (def : MetricDefinition) (v : Value) (use_aliases : Bool) (rest : List ℕ)
    → let by_alias = use_aliases && ltb 0 def.alias in
      encode_metric_value def v use_aliases ++ rest
      ≡ flag_of by_alias
        ∷ (label_of def by_alias ++ (be_bytes 4 def.datatype ++ (encode_value v ++ rest)))
unfolding encode_metric_value
encode_metric_value_lem def v use_aliases rest =
    let label = label_of def (use_aliases && ltb 0 def.alias) in
    rw
      (
        encode_name_lem def use_aliases,
        append_assoc label (be_bytes 4 def.datatype ++ encode_value v) rest,
        append_assoc (be_bytes 4 def.datatype) (encode_value v) rest,
      )
      refl

read_metrics_none : (rest : List ℕ) → read_metrics 0 rest ≡ []
unfolding read_metrics
read_metrics_none rest = refl

pub read_metrics-read_metric :
    (n flag : ℕ) (rest rest' : List ℕ) (m : Metric)
    → read_metric flag rest ≡ some (m, rest')
    → read_metrics (suc n) (flag ∷ rest) ≡ m ∷ read_metrics n rest'
unfolding read_metrics
read_metrics-read_metric n flag rest rest' m e =
    ap (λ o. elim o [ none ↦ [] | some (metric, left) ↦ metric ∷ read_metrics n left ]) e

pub read_metrics-encode_values :
    (metrics : List (Encodable × MetricDefinition × Value)) (use_aliases : Bool)
    → All IsSendable metrics
    → read_metrics (length metrics) (encode_values (map sent metrics) use_aliases)
      ≡ map (received use_aliases) metrics
unfolding encode_values
read_metrics-encode_values [] use_aliases h = read_metrics_none []
read_metrics-encode_values ((s, def, v) ∷ metrics) use_aliases (h, hs) =
    let by_alias = use_aliases && ltb 0 def.alias in
    let rest = encode_values (map sent metrics) use_aliases in
    let tail = label_of def by_alias ++ (be_bytes 4 def.datatype ++ (encode_value v ++ rest)) in
    ap (read_metrics (suc (length metrics))) (encode_metric_value_lem def v use_aliases rest)
    ∙ (read_metrics-read_metric (length metrics) (flag_of by_alias) tail rest
          (received use_aliases (s, def, v)) (read_metric-encode (s, def, v) use_aliases rest h)
        ∙ ap (◌∷◌ (received use_aliases (s, def, v)))
            (read_metrics-encode_values metrics use_aliases hs))

-- Each metric takes at least the four bytes of its datatype.
pub length-encode_values :
    (def : MetricDefinition) (v : Value) (metrics : List (MetricDefinition × Value))
    (use_aliases : Bool)
    → 4 ≤ length (encode_values ((def, v) ∷ metrics) use_aliases)
unfolding encode_values encode_metric_value
length-encode_values def v metrics use_aliases =
    let name = encode_name def use_aliases in
    let value = encode_value v in
    let rest = encode_values metrics use_aliases in
    omega (
      arith,
      length-append (name ++ (be_bytes 4 def.datatype ++ value)) rest,
      length-append name (be_bytes 4 def.datatype ++ value),
      length-append (be_bytes 4 def.datatype) value,
      length-be_bytes 4 def.datatype,
    )
