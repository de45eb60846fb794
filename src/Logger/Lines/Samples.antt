-- ===== src/Logger/Lines/Samples.antt =====
-- api/logger.c: a warning of a worker.
use pyoneer.Prelude.{◌≡◌, ◌<◌, refl, String, false, some, [], arith, ltb, if◌then◌else◌}
use pyoneer.Prelude.Texts.{size}
use pyoneer.Logger.{Logger, Time, Streams, log_line, logger_log}
use pyoneer.Logger.Lines.{IsTime, logged, logger_log_fits}

abbrev logger : Logger
logger = record { level = 1; name = some "worker" }

abbrev time : Time
time = record { year = 2026; mon = 3; mday = 14; hour = 9; min = 5; sec = 7; nsec = 42000000 }

abbrev quiet : Streams
quiet = record { out = []; err = []; flushed = false }

time-IsTime : IsTime time
time-IsTime = record {
  year = omega arith;
  mon = omega arith;
  mday = omega arith;
  hour = omega arith;
  min = omega arith;
  sec = omega arith;
  nsec = omega arith;
}

logger_log_fits_example :
    (line : String) × (log_line logger 2 "pool busy" time ≡ some line)
    × (size line < 1400)
    × (logger_log logger 2 "pool busy" time quiet
        ≡ some (if ltb 2 logger.level then quiet else logged 2 line quiet))
logger_log_fits_example =
    logger_log_fits logger 2 "worker" "pool busy" time quiet (omega arith) refl (omega arith)
      time-IsTime
