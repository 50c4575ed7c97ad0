-- ===== src/Dict.antt =====
-- The dictionary of include/classes/DictObject.mqh and DictBase.mqh as the signal manager uses it: in
-- list mode, where values are pushed without a key and removed through an iterator, and holes are
-- filled with the last value (DICT_FLAG_FILL_HOLES_UNSORTED). No overflow listener is set.
pub mod Slots
pub mod Values
pub mod Counted
pub mod Push
pub mod Unset
pub mod Seek
