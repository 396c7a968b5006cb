-- ===== src/Sparkplug/Decoder.antt =====
-- scoops/sparkplug/src/sparkplug_payload.cpp: `SparkplugPayload::decode` without protobuf. What is left of
-- the data behind `offset` is passed on; numbers are kept as their bit patterns.
use ipb.Base.{
  ℕ, zero, suc, Bool, true, false, not, List, [], ◌∷◌, Option, none, some, if◌then◌else◌, ltb, ◌==◌,
  length, take, drop,
}
use ipb.Base.BigEndian.{from_be}
use ipb.Sparkplug.Types

-- The variant that holds a metric's value.
pub data MetricValue : Type 0 where
  boolean : Bool → MetricValue
  int8 : ℕ → MetricValue
  int16 : ℕ → MetricValue
  int32 : ℕ → MetricValue
  int64 : ℕ → MetricValue
  uint8 : ℕ → MetricValue
  uint16 : ℕ → MetricValue
  uint32 : ℕ → MetricValue
  uint64 : ℕ → MetricValue
  float : ℕ → MetricValue
  double : ℕ → MetricValue
  string : List ℕ → MetricValue
  bytes : List ℕ → MetricValue

pub record Metric : Type 0 where
  pub name : List ℕ
  pub alias : ℕ
  pub datatype : ℕ
  pub is_null : Bool
  pub value : MetricValue

pub record Payload : Type 0 where
  pub timestamp : ℕ
  pub seq : ℕ
  pub metrics : List Metric

-- `read_string`
unfoldable pub read_string : List ℕ → List ℕ × List ℕ
read_string rest =
    let len = from_be (take 4 rest) in
    if ltb (length rest) 4
    then ([], rest)
    else if ltb (length (drop 4 rest)) len
    then ([], drop 4 rest)
    else (take len (drop 4 rest), drop len (drop 4 rest))

-- The value that a metric has before one is read.
abbrev pub unread : MetricValue
unread = MetricValue.boolean false

-- A case of the switch that reads `n` bytes.
unfoldable pub read_sized : ℕ → (ℕ → MetricValue) → List ℕ → MetricValue × Bool × List ℕ
read_sized n make rest =
    if ltb (length rest) n
    then (unread, false, rest)
    else (make (from_be (take n rest)), false, drop n rest)

unfoldable pub read_bytes : List ℕ → MetricValue × Bool × List ℕ
read_bytes rest =
    let len = from_be (take 4 rest) in
    if ltb (length rest) 4
    then (unread, false, rest)
    else if ltb (length (drop 4 rest)) len
    then (unread, false, drop 4 rest)
    else (MetricValue.bytes (take len (drop 4 rest)), false, drop len (drop 4 rest))

unfoldable pub read_text : List ℕ → MetricValue × Bool × List ℕ
read_text rest = let (text, rest') = read_string rest in (MetricValue.string text, false, rest')

-- The switch on the datatype: the value, `is_null`, and what is left.
unfoldable pub read_value : ℕ → List ℕ → MetricValue × Bool × List ℕ
read_value datatype rest =
    if datatype == Types.boolean
    then read_sized 1 (λ n. MetricValue.boolean (not (n == 0))) rest
    else if datatype == Types.int8
    then read_sized 1 MetricValue.int8 rest
    else if datatype == Types.int16
    then read_sized 2 MetricValue.int16 rest
    else if datatype == Types.int32
    then read_sized 4 MetricValue.int32 rest
    else if datatype == Types.int64
    then read_sized 8 MetricValue.int64 rest
    else if datatype == Types.uint8
    then read_sized 1 MetricValue.uint8 rest
    else if datatype == Types.uint16
    then read_sized 2 MetricValue.uint16 rest
    else if datatype == Types.uint32
    then read_sized 4 MetricValue.uint32 rest
    else if datatype == Types.uint64
    then read_sized 8 MetricValue.uint64 rest
    else if datatype == Types.float
    then read_sized 4 MetricValue.float rest
    else if datatype == Types.double
    then read_sized 8 MetricValue.double rest
    else if datatype == Types.string
    then read_text rest
    else if datatype == Types.text
    then read_text rest
    else if datatype == Types.bytes
    then read_bytes rest
    else (unread, true, rest)

-- The alias or the name, behind the flag.
unfoldable pub read_name : ℕ → List ℕ → Option (List ℕ × ℕ × List ℕ)
read_name flag rest =
    if flag == 0
    then (let (name, rest') = read_string rest in some (name, 0, rest'))
    else if ltb (length rest) 8
    then none
    else some ([], from_be (take 8 rest), drop 8 rest)

-- The datatype and the value; none where no datatype is left.
unfoldable pub read_fields : List ℕ → ℕ → List ℕ → Option (Metric × List ℕ)
read_fields name alias rest =
    let datatype = from_be (take 4 rest) in
    let (value, is_null, rest') = read_value datatype (drop 4 rest) in
    if ltb (length rest) 4
    then none
    else some (
      record { name = name; alias = alias; datatype = datatype; is_null = is_null; value = value },
      rest',
    )

-- What follows the alias or the name; none where the loop is left.
abbrev pub read_labelled : Option (List ℕ × ℕ × List ℕ) → Option (Metric × List ℕ)
read_labelled none = none
read_labelled (some (name, alias, rest)) = read_fields name alias rest

-- One turn of the loop, from the flag on.
unfoldable pub read_metric : ℕ → List ℕ → Option (Metric × List ℕ)
read_metric flag rest = read_labelled (read_name flag rest)

-- The loop over the metrics.
unfoldable pub read_metrics : ℕ → List ℕ → List Metric
read_metrics zero rest = []
read_metrics (suc n) [] = []
read_metrics (suc n) (flag ∷ rest) = elim (read_metric flag rest) [
  | none ↦ []
  | some (metric, rest') ↦ metric ∷ read_metrics n rest'
]

-- `decode`
unfoldable pub decode : List ℕ → Option Payload
decode buffer =
    let count = from_be (take 4 (drop 8 (drop 8 buffer))) in
    if ltb (length buffer) 24
    then none
    else if ltb 10000 count
    then none
    else some (record {
      timestamp = from_be (take 8 buffer);
      seq = from_be (take 8 (drop 8 buffer));
      metrics = read_metrics count (drop 4 (drop 8 (drop 8 buffer)));
    })
