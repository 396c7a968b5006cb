-- ===== src/Data.antt =====
-- core/common: the data point, its value, and their binary form.
pub mod Value
pub mod Point
mod Examples
