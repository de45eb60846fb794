-- ===== src/Worker/Names.antt =====
-- The status codes of a worker (pyoneer/worker.h).

-- `other` is any int but those of the enumeration.
pub data WorkerStatus : Type 0 where
  not_assigned assigned not_working working other : WorkerStatus
