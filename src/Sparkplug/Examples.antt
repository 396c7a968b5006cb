-- ===== src/Sparkplug/Examples.antt =====
-- Sparkplug payloads and topics at concrete inputs.
use ipb.Base.{ℕ, ◌≤◌, ◌≡◌, refl, true, false, List, [], ◌∷◌, none, some, map, length, All, arith}
use ipb.Data.Value.Kind
use ipb.Data.Value.{Value, inline}
use ipb.Data.Value.Storing.{length-as_string_view}
use ipb.Sparkplug.Types
use ipb.Sparkplug.Encoder.{MetricDefinition, data_type, encode_data, encode_birth}
use ipb.Base.Bytes.{are_bytes-AreBytes}
use ipb.Base.BigEndian
use ipb.Sparkplug.Decoder
use ipb.Sparkplug.Decoder.{Payload, decode}
use ipb.Sparkplug.RoundTrip.Expected
use ipb.Sparkplug.RoundTrip.Expected.{Encodable, IsSendable, sent, received}
use ipb.Sparkplug.RoundTrip.Payload.{decode-encode_data}
use ipb.Sparkplug.Typing.{IsTyped, decode-IsTyped}
use ipb.Sparkplug.Faults.{decode-encode_birth}
use ipb.Sparkplug.Topic
use ipb.Sparkplug.Topic.{SparkplugTopic}
use ipb.Sparkplug.Topic.Parsing.{parse-to_string, carried}

abbrev level : Value
level = record { kind = Kind.int8; size = 1; storage = inline (200 ∷ []) }

abbrev definition : List ℕ → ℕ → ℕ → MetricDefinition
definition name datatype alias = record {
  name = name;
  datatype = datatype;
  alias = alias;
  description = none;
  unit = none;
  is_transient = false;
  is_historical = false;
}

abbrev metric : Encodable × MetricDefinition × Value
metric = (Expected.int8, definition (116 ∷ 49 ∷ []) Types.int8 3, level)

metric-IsSendable : IsSendable metric
unfolding data_type
metric-IsSendable = (
  refl,
  refl,
  (omega arith, _),
  omega (arith, length-as_string_view level),
  omega arith,
  omega arith,
)

decode-encode_data_example :
    decode (encode_data 1000 7 (map sent (metric ∷ metric ∷ [])) true)
    ≡ some
        (record { timestamp = 1000; seq = 7; metrics = map (received true) (metric ∷ metric ∷ []) })
decode-encode_data_example =
    decode-encode_data 1000 7 metric (metric ∷ []) true (omega arith) (omega arith) (omega arith)
      (metric-IsSendable, (metric-IsSendable, _))

-- A payload with one metric of type Boolean, sent by an empty name.
abbrev buffer : List ℕ
buffer =
    0 ∷ 0 ∷ 0 ∷ 0 ∷ 0 ∷ 0 ∷ 0 ∷ 9 ∷ 0 ∷ 0 ∷ 0 ∷ 0 ∷ 0 ∷ 0 ∷ 0 ∷ 4 ∷ 0 ∷ 0 ∷ 0 ∷ 1 ∷ 0 ∷ 0 ∷ 0 ∷ 0
    ∷ 0 ∷ 0 ∷ 0 ∷ 0 ∷ 11 ∷ 1 ∷ []

abbrev payload : Payload
payload = record {
  timestamp = 9;
  seq = 4;
  metrics =
      record {
        name = [];
        alias = 0;
        datatype = 11;
        is_null = false;
        value = Decoder.MetricValue.boolean true;
      }
      ∷ [];
}

decoded : decode buffer ≡ some payload
unfolding decode Decoder.read_metrics Decoder.read_metric Decoder.read_name Decoder.read_string
    Decoder.read_fields Decoder.read_value Decoder.read_sized BigEndian.from_be
decoded = refl

decode-IsTyped_example : All IsTyped payload.metrics × (length payload.metrics ≤ 10000)
decode-IsTyped_example = decode-IsTyped buffer payload (are_bytes-AreBytes buffer refl) decoded

decode-encode_birth_example :
    decode (encode_birth 1000 0 5 (definition (116 ∷ []) Types.int32 1 ∷ []))
    ≡ some (record { timestamp = 1000; seq = 0; metrics = [] })
decode-encode_birth_example =
    decode-encode_birth 1000 0 5 (definition (116 ∷ []) Types.int32 1 ∷ []) (omega arith)
      (omega arith) (omega arith)

-- "g", DDATA, "n" and "d"
abbrev device_topic : SparkplugTopic
device_topic = record {
  group_id = 103 ∷ [];
  message_type = Topic.ddata;
  edge_node_id = 110 ∷ [];
  device_id = 100 ∷ [];
}

parse-to_string_example : Topic.parse (Topic.to_string device_topic) ≡ some (carried device_topic)
parse-to_string_example = parse-to_string device_topic (refl, _) (refl, _) (omega arith) (refl, _)
