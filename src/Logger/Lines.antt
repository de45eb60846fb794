-- ===== src/Logger/Lines.antt =====
-- api/logger.c: every line that the program logs fits the buffer that it is written from.
mod Samples
use pyoneer.Prelude.{
  ℕ, ◌+◌, ◌/◌, ◌≤◌, ◌<◌, ◌^◌, ◌≡◌, refl, String, Bool, true, false, Option, none, some, ◌∷◌, ltb,
  leb, ◌==◌, if◌then◌else◌, arith, inl, inr, ◌⊎◌, Bool-cases,
}
use pyoneer.Prelude.Texts.{
  ◌^^◌, size, truncate, padded, size-truncate, size-truncate_le, size-cat, size-padded,
}
use pyoneer.Logger.{
  Logger, logger_warn, level_str, Time, timestamp_rfc3339_ms, Streams, log_line, write_line,
  logger_log,
}

-- What the calendar gives up to the year 9999.
pub record IsTime (t : Time) : Type 0 where
  pub year : t.year < 10000
  pub mon : t.mon < 100
  pub mday : t.mday < 100
  pub hour : t.hour < 100
  pub min : t.min < 100
  pub sec : t.sec < 100
  pub nsec : t.nsec < 10 ^ 9

-- A separator and what follows it.
size-sep : (c s : String) → size c ≡ 1 → size (c ^^ s) ≡ 1 + size s
size-sep c s h = omega (arith, size-cat c s, h)

timestamp-fits : (t : Time) → IsTime t → size (timestamp_rfc3339_ms t 63) ≤ 24
unfolding timestamp_rfc3339_ms
timestamp-fits t p =
    let ms = padded 3 (t.nsec / 1000000) ^^ "Z" in
    let ss = padded 2 t.sec ^^ "." ^^ ms in
    let mi = padded 2 t.min ^^ ":" ^^ ss in
    let hh = padded 2 t.hour ^^ ":" ^^ mi in
    let dd = padded 2 t.mday ^^ "T" ^^ hh in
    let mm = padded 2 t.mon ^^ "-" ^^ dd in
    omega (
      arith,
      size-truncate_le 63 (padded 4 t.year ^^ "-" ^^ mm),
      size-cat (padded 4 t.year) ("-" ^^ mm),
      size-padded 3 t.year p.year,
      size-cat (padded 2 t.mon) ("-" ^^ dd),
      size-padded 1 t.mon p.mon,
      size-cat (padded 2 t.mday) ("T" ^^ hh),
      size-padded 1 t.mday p.mday,
      size-cat (padded 2 t.hour) (":" ^^ mi),
      size-padded 1 t.hour p.hour,
      size-cat (padded 2 t.min) (":" ^^ ss),
      size-padded 1 t.min p.min,
      size-cat (padded 2 t.sec) ("." ^^ ms),
      size-padded 1 t.sec p.sec,
      size-cat (padded 3 (t.nsec / 1000000)) "Z",
      size-padded 2 (t.nsec / 1000000) (omega (arith, p.nsec)),
    )

level_cases : (level : ℕ) → level ≤ 3 → (level ≡ 0) ⊎ (level ≡ 1) ⊎ (level ≡ 2) ⊎ (level ≡ 3)
level_cases level h = ground arith

level_str-fits :
    (level : ℕ) → level ≤ 3 → (label : String) × (level_str level ≡ some label) × (size label ≤ 5)
unfolding level_str
level_str-fits level h = elim (level_cases level h) [
  | inl e ↦ rw e ("DEBUG", refl, omega arith)
  | inr (inl e) ↦ rw e ("INFO", refl, omega arith)
  | inr (inr (inl e)) ↦ rw e ("WARN", refl, omega arith)
  | inr (inr (inr e)) ↦ rw e ("ERROR", refl, omega arith)
]

log_line-named :
    (logger : Logger) (level : ℕ) (label name text : String) (t : Time)
    → level_str level ≡ some label
    → logger.name ≡ some name
    → log_line logger level text t
      ≡ some (
          "["
          ^^ timestamp_rfc3339_ms t 63
          ^^ "] "
          ^^ label
          ^^ " "
          ^^ name
          ^^ " "
          ^^ truncate 1023 text
          ^^ "\n")
unfolding log_line
log_line-named logger level label name text t e e' = ground (arith, e, e')

log_line-fits :
    (logger : Logger) (level : ℕ) (name text : String) (t : Time)
    → level ≤ 3
    → logger.name ≡ some name
    → IsTime t
    → (line : String) × (log_line logger level text t ≡ some line) × (size line ≤ 1058 + size name)
log_line-fits logger level name text t h named time =
    let (label, labelled, short) = level_str-fits level h in
    let end = truncate 1023 text ^^ "\n" in
    let tail = " " ^^ name ^^ " " ^^ end in
    (
      "[" ^^ timestamp_rfc3339_ms t 63 ^^ "] " ^^ label ^^ tail,
      log_line-named logger level label name text t labelled named,
      omega (
        arith,
        timestamp-fits t time,
        short,
        size-cat (timestamp_rfc3339_ms t 63) ("] " ^^ label ^^ tail),
        size-cat label tail,
        size-cat name (" " ^^ end),
        size-cat (truncate 1023 text) "\n",
        size-truncate 1023 text,
      ),
    )

-- The streams with a line more in the one that its level asks for.
abbrev pub logged : ℕ → String → Streams → Streams
logged level line s =
    if leb logger_warn level
    then record s { err = line ∷ s.err; flushed = true }
    else record s { out = line ∷ s.out }

write_line-fits :
    (level : ℕ) (line : String) (s : Streams)
    → size line < 1400
    → write_line level line s ≡ some (logged level line s)
unfolding write_line
write_line-fits level line s h = ground arith

-- Whatever the message is: with a level of the program's four, a logger whose name has at most 341 characters, and a time
-- before the year 10000, logging reads nothing past the line that it formatted. Below the level of the
-- logger it writes nothing; from that level on it writes one line of less than 1400 characters, to stderr with a flush for a warning or an
-- error and to stdout otherwise.
pub logger_log_fits :
    (logger : Logger) (level : ℕ) (name text : String) (t : Time) (s : Streams)
    → level ≤ 3
    → logger.name ≡ some name
    → size name ≤ 341
    → IsTime t
    → (line : String) × (log_line logger level text t ≡ some line)
      × (size line < 1400)
      × (logger_log logger level text t s
          ≡ some (if ltb level logger.level then s else logged level line s))
unfolding logger_log
logger_log_fits logger level name text t s h named short time =
    let (line, formed, fits) = log_line-fits logger level name text t h named time in
    (line, formed, omega arith, ground (arith, formed, write_line-fits level line s (omega arith)))
