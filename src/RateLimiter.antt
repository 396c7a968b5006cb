-- ===== src/RateLimiter.antt =====
-- core/common/include/ipb/common/rate_limiter.hpp. Bucket and Window are the two limiters, Layers the
-- adaptive and the hierarchical limiter and the registry.
pub mod Bucket
pub mod Window
pub mod Layers
mod Examples
