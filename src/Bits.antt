-- ===== src/Bits.antt =====
-- 32-bit unsigned words: their binary digits, and the flag operations that the program's
-- structures share (`|=`, `&= ~`, `& ... != 0`).
mod Step
pub mod Digits
pub mod Flags
pub mod OneFlag
