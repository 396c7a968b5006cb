-- ===== src/Sparkplug/RoundTrip.antt =====
-- The scoop reads what the sink's encoder writes (sparkplug_encoder.cpp, sparkplug_payload.cpp).
pub mod Expected
pub mod Values
pub mod Metrics
pub mod Payload
