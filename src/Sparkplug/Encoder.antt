-- ===== src/Sparkplug/Encoder.antt =====
-- sinks/sparkplug/src/sparkplug_encoder.cpp: `SparkplugEncoder` without protobuf, and
-- `MetricDefinition::from_data_point` of sparkplug_sink.cpp.
use ipb.Base.{
  ℕ, ◌+◌, ◌%◌, ◌^◌, Bool, true, false, ◌&&◌, List, [], ◌∷◌, ◌++◌, Option, none, some, if◌then◌else◌,
  ltb, ◌==◌, length,
}
use ipb.Base.BigEndian.{be_bytes}
use ipb.Data.Value.Kind
use ipb.Data.Value.{Value, get_bits, as_string_view}
use ipb.Data.Point.{DataPoint, address}
use ipb.Sparkplug.Types

pub record MetricDefinition : Type 0 where
  pub name : List ℕ
  pub datatype : ℕ
  pub alias : ℕ
  pub description : Option (List ℕ)
  pub unit : Option (List ℕ)
  pub is_transient : Bool
  pub is_historical : Bool

-- `append_string`: the length is cast to 32 bits.
unfoldable pub append_string : List ℕ → List ℕ
append_string text = be_bytes 4 (length text % 2 ^ 32) ++ text

-- The width of a number's type.
abbrev pub width : ℕ → Option ℕ
width kind =
    if kind == Kind.int8
    then some 1
    else if kind == Kind.int16
    then some 2
    else if kind == Kind.int32
    then some 4
    else if kind == Kind.int64
    then some 8
    else if kind == Kind.uint8
    then some 1
    else if kind == Kind.uint16
    then some 2
    else if kind == Kind.uint32
    then some 4
    else if kind == Kind.uint64
    then some 8
    else if kind == Kind.float32
    then some 4
    else if kind == Kind.float64
    then some 8
    else none

-- The switch of `encode_metric_value` on the value's type.
unfoldable pub encode_as : ℕ → Value → List ℕ
encode_as kind v =
    if kind == Kind.bool
    then (if get_bits Kind.bool 1 v == 0 then 0 else 1) ∷ []
    else if kind == Kind.string
    then append_string (as_string_view v)
    else elim (width kind) [ some n ↦ be_bytes n (get_bits kind n v) | none ↦ 0 ∷ [] ]

abbrev pub encode_value : Value → List ℕ
encode_value v = encode_as v.kind v

-- The alias or the name.
unfoldable pub encode_name : MetricDefinition → Bool → List ℕ
encode_name def use_alias =
    if use_alias && ltb 0 def.alias then 1 ∷ be_bytes 8 def.alias else 0 ∷ append_string def.name

-- `encode_metric_value`
unfoldable pub encode_metric_value : MetricDefinition → Value → Bool → List ℕ
encode_metric_value def v use_alias =
    encode_name def use_alias ++ (be_bytes 4 def.datatype ++ encode_value v)

unfoldable pub encode_values : List (MetricDefinition × Value) → Bool → List ℕ
encode_values [] use_aliases = []
encode_values ((def, v) ∷ metrics) use_aliases =
    encode_metric_value def v use_aliases ++ encode_values metrics use_aliases

-- `encode_data`
unfoldable pub encode_data : ℕ → ℕ → List (MetricDefinition × Value) → Bool → List ℕ
encode_data timestamp seq metrics use_aliases =
    be_bytes 8 timestamp
    ++ (be_bytes 8 seq
        ++ (be_bytes 4 (length metrics % 2 ^ 32) ++ encode_values metrics use_aliases))

-- The datatype that `from_data_point` infers.
unfoldable pub data_type : ℕ → ℕ
data_type kind =
    if kind == Kind.bool
    then Types.boolean
    else if kind == Kind.int8
    then Types.int8
    else if kind == Kind.int16
    then Types.int16
    else if kind == Kind.int32
    then Types.int32
    else if kind == Kind.int64
    then Types.int64
    else if kind == Kind.uint8
    then Types.uint8
    else if kind == Kind.uint16
    then Types.uint16
    else if kind == Kind.uint32
    then Types.uint32
    else if kind == Kind.uint64
    then Types.uint64
    else if kind == Kind.float32
    then Types.float
    else if kind == Kind.float64
    then Types.double
    else if kind == Kind.string
    then Types.string
    else Types.unknown

unfoldable pub from_data_point : DataPoint → MetricDefinition
from_data_point dp = record {
  name = address dp;
  datatype = data_type dp.value.kind;
  alias = 0;
  description = none;
  unit = none;
  is_transient = false;
  is_historical = false;
}

-- `encode_data_point`
unfoldable pub encode_data_point : ℕ → ℕ → DataPoint → ℕ → List ℕ
encode_data_point timestamp seq dp alias =
    let def = record (from_data_point dp) { alias = alias } in
    be_bytes 8 timestamp
    ++ (be_bytes 8 seq ++ (be_bytes 4 1 ++ encode_metric_value def dp.value (ltb 0 alias)))

-- `encode_metric_definition`
abbrev pub optional_string : Option (List ℕ) → List ℕ
optional_string none = []
optional_string (some text) = append_string text

abbrev pub has_value : Option (List ℕ) → Bool
has_value none = false
has_value (some text) = true

unfoldable pub encode_metric_definition : MetricDefinition → List ℕ
encode_metric_definition m =
    append_string m.name
    ++ (be_bytes 8 m.alias
        ++ (be_bytes 4 m.datatype
            ++ (((if m.is_transient then 1 else 0) + (if m.is_historical then 2 else 0))
                ∷ ((if has_value m.description then 1 else 0) + (if has_value m.unit then 2 else 0))
                ∷ (optional_string m.description ++ optional_string m.unit))))

unfoldable pub encode_definitions : List MetricDefinition → List ℕ
encode_definitions [] = []
encode_definitions (m ∷ metrics) = encode_metric_definition m ++ encode_definitions metrics

-- `encode_birth` and `encode_death`
unfoldable pub encode_birth : ℕ → ℕ → ℕ → List MetricDefinition → List ℕ
encode_birth timestamp seq bdseq metrics =
    be_bytes 8 timestamp
    ++ (be_bytes 8 seq
        ++ (be_bytes 8 bdseq
            ++ (be_bytes 4 (length metrics % 2 ^ 32) ++ encode_definitions metrics)))

unfoldable pub encode_death : ℕ → ℕ → List ℕ
encode_death timestamp bdseq = be_bytes 8 timestamp ++ be_bytes 8 bdseq
