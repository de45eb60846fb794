-- ===== src/Task/Names.antt =====
-- The status codes of a task (blueprint/task.h).

-- `other` is any int but those of the enumeration: the field is an int that a caller may set.
pub data Status : Type 0 where
  not_ready ready running completed incomplete other : Status
