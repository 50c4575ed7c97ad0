-- ===== src/Timeframe.antt =====
-- Chart timeframes: the tables, the conversions, and the ChartTf structure.
pub mod Tables
pub mod Convert
pub mod ChartTf
pub mod Roundtrip
pub mod Seconds
