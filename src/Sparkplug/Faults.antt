-- ===== src/Sparkplug/Faults.antt =====
-- Payloads of sparkplug_encoder.cpp that sparkplug_payload.cpp does not read as they were meant.
use ipb.Base.{
  ℕ, ◌/◌, ◌%◌, ◌^◌, ◌<◌, ◌≡◌, refl, ap, ◌∙◌, ◌⊎◌, Bool, true, List, [], ◌++◌, none, some, ltb,
  length, length-append, arith,
}
use mathlib.Core.List.{append_assoc}
use ipb.Base.BigEndian.{be_bytes, length-be_bytes}
use ipb.Data.Value.Kind
use ipb.Data.Value.{Value}
use ipb.Sparkplug.Types
use ipb.Sparkplug.Encoder.{
  MetricDefinition, encode_values, encode_data, encode_definitions, encode_birth, encode_death,
}
use ipb.Sparkplug.Decoder.{Metric, unread, read_metrics, decode}
use ipb.Sparkplug.RoundTrip.Payload.{decode_fields}

-- The upper half of a small number of eight bytes is zeros.
be_bytes-small : (x : ℕ) → x < 2 ^ 32 → be_bytes 8 x ≡ be_bytes 4 0 ++ be_bytes 4 x
unfolding be_bytes
be_bytes-small x h =
    let a : x / 256 ^ 7 % 256 ≡ 0 = omega arith in
    let b : x / 256 ^ 6 % 256 ≡ 0 = omega arith in
    let c : x / 256 ^ 5 % 256 ≡ 0 = omega arith in
    let d : x / 256 ^ 4 % 256 ≡ 0 = omega arith in rw (a, b, c, d) refl

-- A birth certificate of whatever metrics, with a bdSeq below 2^32, is decoded without its metrics: the
-- decoder takes the upper half of the bdSeq for their number.
pub decode-encode_birth :
    (timestamp seq bdseq : ℕ) (metrics : List MetricDefinition)
    → timestamp < 2 ^ 64
    → seq < 2 ^ 64
    → bdseq < 2 ^ 32
    → decode (encode_birth timestamp seq bdseq metrics)
      ≡ some (record { timestamp = timestamp; seq = seq; metrics = [] })
unfolding encode_birth read_metrics
decode-encode_birth timestamp seq bdseq metrics ht hs hb =
    let definitions = be_bytes 4 (length metrics % 2 ^ 32) ++ encode_definitions metrics in
    let rest = be_bytes 4 bdseq ++ definitions in
    let halves : be_bytes 8 bdseq ++ definitions ≡ be_bytes 4 0 ++ rest =
      ap (λ half. half ++ definitions) (be_bytes-small bdseq hb)
      ∙ append_assoc (be_bytes 4 0) (be_bytes 4 bdseq) definitions in
    ap (λ tail. decode (be_bytes 8 timestamp ++ (be_bytes 8 seq ++ tail))) halves
    ∙ decode_fields timestamp seq 0 rest ht hs (omega arith)
        (omega (arith, length-append (be_bytes 4 bdseq) definitions, length-be_bytes 4 bdseq))

-- Death certificates, and data without metrics, are shorter than what `decode` asks for.
pub decode-encode_death :
    (timestamp seq bdseq : ℕ) (use_aliases : Bool)
    → (decode (encode_death timestamp bdseq) ≡ none)
      × (decode (encode_data timestamp seq [] use_aliases) ≡ none)
unfolding decode encode_death encode_data encode_values
decode-encode_death timestamp seq bdseq use_aliases =
    let short : ltb (length (encode_death timestamp bdseq)) 24 ≡ true = ground (
      arith,
      length-append (be_bytes 8 timestamp) (be_bytes 8 bdseq),
      length-be_bytes 8 timestamp,
      length-be_bytes 8 bdseq,
    ) in
    let fields = be_bytes 4 0 ++ [] in
    let brief : ltb (length (encode_data timestamp seq [] use_aliases)) 24 ≡ true = ground (
      arith,
      length-append (be_bytes 8 timestamp) (be_bytes 8 seq ++ fields),
      length-append (be_bytes 8 seq) fields,
      length-append (be_bytes 4 0) [],
      length-be_bytes 8 timestamp,
      length-be_bytes 8 seq,
      length-be_bytes 4 0,
    ) in
    (rw (short) refl, rw (brief) refl)

-- The types of value that the encoder has no case for.
abbrev pub HasNoCase : ℕ → Type 0
HasNoCase kind = (kind ≡ Kind.empty) ⊎ (kind ≡ Kind.binary)

-- What arrives of such a metric.
abbrev pub null_metric : List ℕ → ℕ → ℕ → Metric
null_metric name alias datatype = record {
  name = name;
  alias = alias;
  datatype = datatype;
  is_null = true;
  value = unread;
}
