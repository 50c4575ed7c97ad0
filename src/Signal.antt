-- ===== src/Signal.antt =====
-- Trade signals: the flag word that records what a strategy answered, and the decisions to open
-- and to close that are read from it.
pub mod Entry
pub mod Decision
pub mod Collect
pub mod Laws
pub mod Decode
