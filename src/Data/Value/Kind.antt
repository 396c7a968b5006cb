-- ===== src/Data/Value/Kind.antt =====
-- `Value::Type` of core/common/include/ipb/common/data_point.hpp, by its byte. A deserialized value may hold
-- any byte.
use ipb.Base.{ℕ}

abbrev pub empty : ℕ
empty = 0

abbrev pub bool : ℕ
bool = 1

abbrev pub int8 : ℕ
int8 = 2

abbrev pub int16 : ℕ
int16 = 3

abbrev pub int32 : ℕ
int32 = 4

abbrev pub int64 : ℕ
int64 = 5

abbrev pub uint8 : ℕ
uint8 = 6

abbrev pub uint16 : ℕ
uint16 = 7

abbrev pub uint32 : ℕ
uint32 = 8

abbrev pub uint64 : ℕ
uint64 = 9

abbrev pub float32 : ℕ
float32 = 10

abbrev pub float64 : ℕ
float64 = 11

abbrev pub string : ℕ
string = 12

abbrev pub binary : ℕ
binary = 13
