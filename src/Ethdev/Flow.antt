-- ===== src/Ethdev/Flow.antt =====
-- ethdev/flow: the actions and patterns that the rules of flows are made of.
pub mod Rss
pub mod Pattern
pub mod Item
