-- ===== src/Stg.antt =====
-- The parameters of strategies: src/include/classes/Strategy.struct.h.
pub mod Params
