-- ===== src/Sinks.antt =====
-- core/components, sink_registry: the output sinks, their registry and the load balancers that
-- choose among them.
pub mod Info
pub mod Balancer
pub mod Registry
mod Examples
