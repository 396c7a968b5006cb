-- ===== src/RuleEngine.antt =====
-- core/components/src/rule_engine: matching addresses, and the store of rules with its cache.
pub mod Wildcard
pub mod Rule
pub mod Engine
mod Examples
