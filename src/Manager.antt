-- ===== src/Manager.antt =====
-- The signal manager (include/classes/Trade/TradeSignalManager.h, with its parameters in
-- TradeSignalManager.struct.h): three dictionaries of signals, and when they are refreshed.
pub mod Refresh
pub mod Total
pub mod Clean
pub mod Alias
pub mod Ready
