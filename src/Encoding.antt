-- ===== src/Encoding.antt =====
-- core/transform: the text encodings. Tables holds the alphabets and decode tables, Hex and Base64
-- the two implementations of each encoding (the free functions of src/encoding.cpp and the
-- transformers of include/ipb/transform/encoding/encoding.hpp).
pub mod Tables
pub mod Hex
pub mod Base64
mod Examples
