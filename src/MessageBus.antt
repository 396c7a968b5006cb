-- ===== src/MessageBus.antt =====
-- core/components/src/message_bus: which subscriptions a topic reaches.
pub mod Topic
mod Examples
