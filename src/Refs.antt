-- ===== src/Refs.antt =====
-- Reference counting: src/include/classes/Refs.struct.h and Refs.mqh.
pub mod Heap
pub mod Strong
pub mod Weak
pub mod Counts
pub mod Local
pub mod Pointer
pub mod Program
pub mod View
