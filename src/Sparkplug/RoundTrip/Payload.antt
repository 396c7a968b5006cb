-- ===== src/Sparkplug/RoundTrip/Payload.antt =====
-- The whole payload: `SparkplugEncoder::encode_data` and `encode_data_point` (sparkplug_encoder.cpp) read
-- back by `SparkplugPayload::decode` (sparkplug_payload.cpp).
use ipb.Base.{
  ℕ, suc, ◌%◌, ◌^◌, ◌≤◌, ◌<◌, ◌≡◌, refl, sym, ap, ◌∙◌, Bool, false, List, [], ◌∷◌, ◌++◌, map, some,
  ltb, length, length-append, length-map, arith, All,
}
use ipb.Base.BigEndian.{
  be_bytes, length-be_bytes, from_be-be_bytes_four, from_be-be_bytes_eight, take-be_bytes,
  drop-be_bytes,
}
use ipb.Data.Value.{Value}
use ipb.Data.Point.{DataPoint}
use ipb.Sparkplug.Encoder.{
  MetricDefinition, encode_values, encode_metric_value, encode_data, from_data_point,
  encode_data_point,
}
use mathlib.Core.List.{append-nil}
use ipb.Data.Point.{address}
use ipb.Data.Value.{stored, bytes_or_nil, as_string_view}
use ipb.Base.Bytes.{AreBytes}
use ipb.Sparkplug.RoundTrip.Expected.{kind_of}
use ipb.Sparkplug.Decoder.{read_metrics, decode}
use ipb.Sparkplug.RoundTrip.Expected.{Encodable, IsSendable, sent, received}
use ipb.Sparkplug.RoundTrip.Metrics.{read_metrics-encode_values, length-encode_values}

-- A payload of three fields and what follows them.
pub decode_fields :
    (timestamp seq count : ℕ) (rest : List ℕ)
    → timestamp < 2 ^ 64
    → seq < 2 ^ 64
    → count ≤ 10000
    → 4 ≤ length rest
    → decode (be_bytes 8 timestamp ++ (be_bytes 8 seq ++ (be_bytes 4 count ++ rest)))
      ≡ some (record { timestamp = timestamp; seq = seq; metrics = read_metrics count rest })
unfolding decode
decode_fields timestamp seq count rest ht hs hc hr =
    let counted = be_bytes 4 count ++ rest in
    let sequenced = be_bytes 8 seq ++ counted in
    let long : ltb (length (be_bytes 8 timestamp ++ sequenced)) 24 ≡ false = ground (
      arith,
      length-append (be_bytes 8 timestamp) sequenced,
      length-be_bytes 8 timestamp,
      length-append (be_bytes 8 seq) counted,
      length-be_bytes 8 seq,
      length-append (be_bytes 4 count) rest,
      length-be_bytes 4 count,
    ) in
    let few : ltb 10000 count ≡ false = ground arith in
    rw
      (
        long,
        take-be_bytes 8 timestamp sequenced,
        drop-be_bytes 8 timestamp sequenced,
        take-be_bytes 8 seq counted,
        drop-be_bytes 8 seq counted,
        take-be_bytes 4 count rest,
        drop-be_bytes 4 count rest,
        from_be-be_bytes_eight timestamp ht,
        from_be-be_bytes_eight seq hs,
        from_be-be_bytes_four count (omega arith),
        few,
      )
      refl

-- A payload of at least one metric and at most 10000 of them arrives: the time, the sequence number, and
-- every metric in its order under its alias or its name, with its datatype and its value. Each metric's
-- datatype is the one inferred from its value, whose type is one that the encoder has a case for.
pub decode-encode_data :
    (timestamp seq : ℕ) (m : Encodable × MetricDefinition × Value)
    (ms : List (Encodable × MetricDefinition × Value)) (use_aliases : Bool)
    → timestamp < 2 ^ 64
    → seq < 2 ^ 64
    → length ms < 10000
    → All IsSendable (m ∷ ms)
    → decode (encode_data timestamp seq (map sent (m ∷ ms)) use_aliases)
      ≡ some (record {
        timestamp = timestamp;
        seq = seq;
        metrics = map (received use_aliases) (m ∷ ms);
      })
unfolding encode_data
decode-encode_data timestamp seq (s, def, v) ms use_aliases ht hs hc h =
    let metrics = map sent ((s, def, v) ∷ ms) in
    let rest = encode_values metrics use_aliases in
    let count : length metrics % 2 ^ 32 ≡ suc (length ms) = omega (arith, length-map sent ms) in
    ap (λ n. decode (be_bytes 8 timestamp ++ (be_bytes 8 seq ++ (be_bytes 4 n ++ rest)))) count
    ∙ (decode_fields timestamp seq (suc (length ms)) rest ht hs (omega arith)
          (length-encode_values def v (map sent ms) use_aliases)
        ∙ ap
            (λ received_metrics.
              some (record { timestamp = timestamp; seq = seq; metrics = received_metrics }))
            (read_metrics-encode_values ((s, def, v) ∷ ms) use_aliases h))

-- What `encode_data_point` makes of a data point, with the alias it is given.
abbrev pub definition_of : DataPoint → ℕ → MetricDefinition
definition_of dp alias = record (from_data_point dp) { alias = alias }

encode_data_point-eq-encode_data :
    (timestamp seq : ℕ) (dp : DataPoint) (alias : ℕ)
    → encode_data_point timestamp seq dp alias
      ≡ encode_data timestamp seq ((definition_of dp alias, dp.value) ∷ []) (ltb 0 alias)
unfolding encode_data_point encode_data encode_values
encode_data_point-eq-encode_data timestamp seq dp alias =
    ap (λ rest. be_bytes 8 timestamp ++ (be_bytes 8 seq ++ (be_bytes 4 1 ++ rest)))
      (sym (append-nil (encode_metric_value (definition_of dp alias) dp.value (ltb 0 alias))))

-- A data point whose value is of a type that the encoder has a case for arrives as one metric: under its
-- alias, where that is not 0, or else under its address, with its value.
pub decode-encode_data_point :
    (timestamp seq : ℕ) (s : Encodable) (dp : DataPoint) (alias : ℕ)
    → timestamp < 2 ^ 64
    → seq < 2 ^ 64
    → alias < 2 ^ 64
    → dp.value.kind ≡ kind_of s
    → AreBytes (bytes_or_nil (stored dp.value.storage))
    → length (as_string_view dp.value) < 2 ^ 32
    → length (address dp) < 2 ^ 32
    → decode (encode_data_point timestamp seq dp alias)
      ≡ some (record {
        timestamp = timestamp;
        seq = seq;
        metrics = received (ltb 0 alias) (s, definition_of dp alias, dp.value) ∷ [];
      })
unfolding from_data_point
decode-encode_data_point timestamp seq s dp alias ht hs ha hk hb hl hn =
    ap decode (encode_data_point-eq-encode_data timestamp seq dp alias)
    ∙ decode-encode_data timestamp seq (s, definition_of dp alias, dp.value) [] (ltb 0 alias) ht hs
        (omega arith) ((hk, refl, hb, hl, hn, ha), _)
