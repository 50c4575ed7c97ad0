-- ===== src/Ea.antt =====
-- The expert advisor's own state and parameters (src/include/classes/EA.struct.h), and its signal
-- manager (src/include/classes/Trade/TradeSignalManager.h).
pub mod State
pub mod Params
pub mod Process
pub mod Tick
pub mod WholeTick
