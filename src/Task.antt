-- ===== src/Task.antt =====
-- Tasks: src/include/classes/Task.struct.h, Action.struct.h and Condition.struct.h, Task.mqh, and the
-- tests of Condition.mqh and Action.mqh.
pub mod Entry
pub mod Process
