-- ===== src/Candle.antt =====
-- Candles: src/include/classes/Bar.struct.h, Bar.enum.h, Pattern.struct.h and Pattern.enum.h.
pub mod Bar
pub mod Pattern
pub mod One
pub mod Two
pub mod Three
pub mod Four
pub mod Five
pub mod Bitwise
pub mod Words
pub mod Entry
pub mod Pivots
pub mod Order
pub mod Nested
pub mod Opposites
