-- ===== src/Trade.antt =====
-- Trade: the states of a trade, its limits for each period, and the statistics they are checked
-- against.
pub mod States
pub mod Stats
pub mod Limits
pub mod Params
