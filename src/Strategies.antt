-- ===== src/Strategies.antt =====
-- Strategies: the two enumerations with their dispatchers, and the magic numbers under which the
-- EA registers a strategy for each of its timeframes.
pub mod Class
pub mod Libre
pub mod Manager
pub mod Dispatch
pub mod Magic
