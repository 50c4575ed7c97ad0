-- ===== src/Order.antt =====
-- Orders: src/include/classes/Order.struct.h and Order.enum.h.
pub mod Data
pub mod Access
pub mod Params
