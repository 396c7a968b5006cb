-- ===== src/Sparkplug/Types.antt =====
-- Data types of metrics (sinks/sparkplug/include/ipb/sink/sparkplug/sparkplug_sink.hpp and
-- scoops/sparkplug/include/ipb/scoop/sparkplug/sparkplug_scoop.hpp), by their numbers on the wire.
use ipb.Base.{ℕ}

abbrev pub unknown : ℕ
unknown = 0

abbrev pub int8 : ℕ
int8 = 1

abbrev pub int16 : ℕ
int16 = 2

abbrev pub int32 : ℕ
int32 = 3

abbrev pub int64 : ℕ
int64 = 4

abbrev pub uint8 : ℕ
uint8 = 5

abbrev pub uint16 : ℕ
uint16 = 6

abbrev pub uint32 : ℕ
uint32 = 7

abbrev pub uint64 : ℕ
uint64 = 8

abbrev pub float : ℕ
float = 9

abbrev pub double : ℕ
double = 10

abbrev pub boolean : ℕ
boolean = 11

abbrev pub string : ℕ
string = 12

abbrev pub text : ℕ
text = 14

abbrev pub bytes : ℕ
bytes = 17
