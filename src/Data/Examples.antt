-- ===== src/Data/Examples.antt =====
-- The laws of core/common/src/data_point.cpp at concrete inputs.
use ipb.Base.{ℕ, ◌-◌, ◌^◌, ◌≡◌, refl, List, [], ◌∷◌, ◌++◌, ◌≢◌, ◌<◌, replicate, arith}
use ipb.Base.Bytes.{le_bytes, from_le}
use ipb.Data.Value
use ipb.Data.Value.{Value, inline, external, terminated, overrun, refused, empty_value}
use ipb.Data.Value.Kind
use ipb.Data.Value.Storing
use ipb.Data.Value.Storing.{
  contents, set_string_view_lem, set_binary_lem, get_bits-set_bits, move_from_lem,
}
use ipb.Data.Value.Serial
use ipb.Data.Value.Serial.{deserialize-serialize}
use ipb.Data.Value.Overflow.{size_field, deserialize-ne-overrun, deserialize_terminates}
use ipb.Data.Point
use ipb.Data.Point.{DataPoint}
use ipb.Data.Point.Serial as PointSerial
use ipb.Data.Point.Serial.{deserialize_point-serialize, address-set_address}

abbrev word : Value
word = record { kind = Kind.string; size = 3; storage = inline (65 ∷ (66 ∷ (67 ∷ []))) }

word-IsValid : Storing.IsValid word
word-IsValid = (omega arith, omega arith)

abbrev block : Value
block = record { kind = Kind.binary; size = 57; storage = external (replicate 57 9) }

block-IsValid : Storing.IsValid block
block-IsValid = (omega arith, refl)

deserialize-serialize_example :
    Serial.Reads word (Value.deserialize (Value.serialize word (replicate 14 0)) block)
deserialize-serialize_example =
    deserialize-serialize word block (replicate 14 0) word-IsValid (omega arith) (omega arith)

crafted-small :
    size_field (8 ∷ (200 ∷ (0 ∷ (0 ∷ (0 ∷ (0 ∷ (0 ∷ (0 ∷ (0 ∷ (1 ∷ [])))))))))) < 2 ^ 64 - 9
unfolding from_le
crafted-small = omega arith

abbrev short_buffer : List ℕ
short_buffer = 8 ∷ (200 ∷ (0 ∷ (0 ∷ (0 ∷ (0 ∷ (0 ∷ (0 ∷ (0 ∷ (1 ∷ [])))))))))

deserialize-ne-overrun_example :
    (Value.deserialize short_buffer word ≢ overrun)
    × (Value.deserialize short_buffer word ≢ terminated)
deserialize-ne-overrun_example = deserialize-ne-overrun short_buffer word crafted-small

deserialize_terminates_example :
    Value.deserialize (11 ∷ (le_bytes 8 (2 ^ 64 - 1) ++ [])) word ≡ terminated
deserialize_terminates_example =
    deserialize_terminates 11 (2 ^ 64 - 1) [] word (omega arith) (omega arith)

abbrev point : DataPoint
point = record {
  value = word;
  timestamp = 1700000000000000000;
  address_size = 2;
  address_storage = inline (97 ∷ (98 ∷ []));
  protocol_id = 513;
  quality = 0;
  sequence_number = 70000;
}

point-IsValid : PointSerial.IsValid point
point-IsValid = record {
  valued = word-IsValid;
  small = omega arith;
  addressed = omega arith;
  address_bits = omega arith;
  time_bits = omega arith;
  protocol_bits = omega arith;
  quality_bits = omega arith;
  sequence_bits = omega arith;
}

deserialize_point-serialize_example :
    PointSerial.Reads point (Point.deserialize (Point.serialize point (replicate 40 0)) point)
deserialize_point-serialize_example =
    deserialize_point-serialize point point (replicate 40 0) point-IsValid (omega arith)

abbrev long_name : List ℕ
long_name = replicate 33 120
