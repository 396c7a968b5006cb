-- ===== src/Sparkplug/RoundTrip/Expected.antt =====
-- What the two ends of a Sparkplug connection agree on: the types of value the encoder has a case for,
-- and what the scoop should see of each (sparkplug_encoder.cpp, sparkplug_payload.cpp).
use ipb.Base.{ℕ, ◌^◌, ◌<◌, ◌≡◌, Bool, false, not, ◌&&◌, [], if◌then◌else◌, ltb, ◌==◌, length}
use ipb.Data.Value.Kind
use ipb.Data.Value.{Value, get_bits, as_string_view}
use ipb.Sparkplug.Encoder.{MetricDefinition, data_type}
use ipb.Sparkplug.Decoder.{MetricValue, Metric}
use ipb.Base.Bytes.{AreBytes}
use ipb.Data.Value.{stored, bytes_or_nil}

-- The types of values that the encoder has a case for.
pub data Encodable : Type 0 where
  bool : Encodable
  int8 : Encodable
  int16 : Encodable
  int32 : Encodable
  int64 : Encodable
  uint8 : Encodable
  uint16 : Encodable
  uint32 : Encodable
  uint64 : Encodable
  float32 : Encodable
  float64 : Encodable
  string : Encodable

abbrev pub kind_of : Encodable → ℕ
kind_of bool = Kind.bool
kind_of int8 = Kind.int8
kind_of int16 = Kind.int16
kind_of int32 = Kind.int32
kind_of int64 = Kind.int64
kind_of uint8 = Kind.uint8
kind_of uint16 = Kind.uint16
kind_of uint32 = Kind.uint32
kind_of uint64 = Kind.uint64
kind_of float32 = Kind.float32
kind_of float64 = Kind.float64
kind_of string = Kind.string

-- What a metric with this value holds on the other side: the same type, and the same bits or text.
abbrev pub value_as : Encodable → Value → MetricValue
value_as bool v = MetricValue.boolean (not (get_bits Kind.bool 1 v == 0))
value_as int8 v = MetricValue.int8 (get_bits Kind.int8 1 v)
value_as int16 v = MetricValue.int16 (get_bits Kind.int16 2 v)
value_as int32 v = MetricValue.int32 (get_bits Kind.int32 4 v)
value_as int64 v = MetricValue.int64 (get_bits Kind.int64 8 v)
value_as uint8 v = MetricValue.uint8 (get_bits Kind.uint8 1 v)
value_as uint16 v = MetricValue.uint16 (get_bits Kind.uint16 2 v)
value_as uint32 v = MetricValue.uint32 (get_bits Kind.uint32 4 v)
value_as uint64 v = MetricValue.uint64 (get_bits Kind.uint64 8 v)
value_as float32 v = MetricValue.float (get_bits Kind.float32 4 v)
value_as float64 v = MetricValue.double (get_bits Kind.float64 8 v)
value_as string v = MetricValue.string (as_string_view v)

-- A metric with the type of its value. Its datatype is the one inferred, bytes are bytes, and lengths and
-- the alias are within their fields.
abbrev pub IsSendable : Encodable × MetricDefinition × Value → Type 0
IsSendable (s, def, v) =
    (v.kind ≡ kind_of s)
    × (def.datatype ≡ data_type v.kind)
    × AreBytes (bytes_or_nil (stored v.storage))
    × (length (as_string_view v) < 2 ^ 32)
    × (length def.name < 2 ^ 32)
    × (def.alias < 2 ^ 64)

-- The metric as it is sent.
abbrev pub sent : Encodable × MetricDefinition × Value → MetricDefinition × Value
sent (s, def, v) = (def, v)

-- The metric as it should arrive: by its alias, or by its name.
abbrev pub received : Bool → Encodable × MetricDefinition × Value → Metric
received use_aliases (s, def, v) = record {
  name = if use_aliases && ltb 0 def.alias then [] else def.name;
  alias = if use_aliases && ltb 0 def.alias then def.alias else 0;
  datatype = def.datatype;
  is_null = false;
  value = value_as s v;
}
