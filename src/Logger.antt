-- ===== src/Logger.antt =====
-- api/logger.c: the line that a log call writes, and the stream that it writes it to. A character is
-- one byte here.
mod Lines
use Prim.Native.Char.{nul}
use Prim.Native.String.{[], ◌∷◌}
use pyoneer.Prelude.{
  ℕ, ◌+◌, ◌*◌, ◌/◌, ◌%◌, ◌≤◌, String, Bool, true, false, Option, none, some, List, ◌∷◌, ltb, leb,
  ◌==◌, if◌then◌else◌,
}
use pyoneer.Prelude.Texts.{◌^^◌, size, truncate, padded}
use pyoneer.Memory.{Run, pure, fault, malloc, ◌>>=◌}

-- `LOGGER_DEBUG` and the others
abbrev pub logger_debug : ℕ
logger_debug = 0

abbrev pub logger_info : ℕ
logger_info = 1

abbrev pub logger_warn : ℕ
logger_warn = 2

abbrev pub logger_error : ℕ
logger_error = 3

-- `struct Logger`, less its lock; a name that `strdup` cannot copy is NULL.
pub record Logger : Type 0 where
  pub level : ℕ
  pub name : Option String

unfoldable pub level_str : ℕ → Option String
level_str level =
    if level == logger_debug
    then some "DEBUG"
    else if level == logger_info
    then some "INFO"
    else if level == logger_warn
    then some "WARN"
    else if level == logger_error
    then some "ERROR"
    else none

-- `clock_gettime` and `gmtime_r`, with the year and the month as they are printed.
pub record Time : Type 0 where
  pub year : ℕ
  pub mon : ℕ
  pub mday : ℕ
  pub hour : ℕ
  pub min : ℕ
  pub sec : ℕ
  pub nsec : ℕ

unfoldable pub timestamp_rfc3339_ms : Time → ℕ → String
unfolding padded
timestamp_rfc3339_ms t out_sz = truncate out_sz (
    padded 4 t.year
    ^^ "-"
    ^^ padded 2 t.mon
    ^^ "-"
    ^^ padded 2 t.mday
    ^^ "T"
    ^^ padded 2 t.hour
    ^^ ":"
    ^^ padded 2 t.min
    ^^ ":"
    ^^ padded 2 t.sec
    ^^ "."
    ^^ padded 3 (t.nsec / 1000000)
    ^^ "Z")

-- `malloc`, `strdup` and `pthread_mutex_init` are asked in this order.
unfoldable pub logger_create : ℕ → String → Run (Option Logger)
logger_create level name = do
  ok ← malloc
  if ok
      then (do
        copied ← malloc
        inited ← malloc
        if inited
            then pure (some (record { level = level; name = if copied then some name else none }))
            else pure none)
      else pure none

-- What has been written to the two streams, the last line first, and whether all of `err` has been flushed.
pub record Streams : Type 0 where
  pub out : List String
  pub err : List String
  pub flushed : Bool

-- The whole line, before it is cut to the buffer of 1400; a NULL in it is undefined behaviour.
unfoldable pub log_line : Logger → ℕ → String → Time → Option String
unfolding level_str timestamp_rfc3339_ms
log_line logger level text t = elim (level_str level) [
  | none ↦ none
  | some label ↦ elim logger.name [
    | none ↦ none
    | some name ↦ some (
        "["
        ^^ timestamp_rfc3339_ms t 63
        ^^ "] "
        ^^ label
        ^^ " "
        ^^ name
        ^^ " "
        ^^ truncate 1023 text
        ^^ "\n")
  ]
]

-- What `fwrite` finds in the buffer of 1400, from which it takes as many bytes as `snprintf` says that
-- the whole line has: of a line of 1400 characters the end that `snprintf` put, of a longer one bytes
-- past the buffer, which is undefined behaviour.
unfoldable pub buffered : String → Option String
buffered line =
    if ltb 1400 (size line)
    then none
    else if ltb 1399 (size line)
    then some (truncate 1399 line ^^ nul ∷ [])
    else some line

abbrev pub put_line : ℕ → Streams → String → Streams
put_line level s line =
    if leb logger_warn level
    then record s { err = line ∷ s.err; flushed = true }
    else record s { out = line ∷ s.out }

unfoldable pub write_line : ℕ → String → Streams → Option Streams
unfolding buffered
write_line level line s = elim (buffered line) [
  | none ↦ none
  | some bytes ↦ some (put_line level s bytes)
]

-- `text` is the message that `fmt` and its arguments give; `none` is undefined behaviour.
unfoldable pub logger_log : Logger → ℕ → String → Time → Streams → Option Streams
unfolding log_line write_line
logger_log logger level text t s =
    if ltb level logger.level
    then some s
    else elim (log_line logger level text t) [ none ↦ none | some line ↦ write_line level line s ]
