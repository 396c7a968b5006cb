-- ===== src/Sparkplug.antt =====
-- The Sparkplug B payloads and topics that the sink writes and the scoop reads.
pub mod Types
pub mod Encoder
pub mod Decoder
pub mod RoundTrip
pub mod Faults
pub mod Typing
pub mod Topic
mod Examples
