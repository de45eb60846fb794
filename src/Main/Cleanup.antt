-- ===== src/Main/Cleanup.antt =====
-- src/main.c: what the program leaves behind, on every path.
use pyoneer.Prelude.{◌≡◌, List}
use mathlib.Core.List.{reverse}
use pyoneer.Server.{Sys}
use pyoneer.Main.{Exit}
use pyoneer.Main.Clean.{Within}

-- What an exit owes to the system that the program started in.
abbrev pub IsTidy : Sys → Exit → Type 0
IsTidy before e = (e.freed ≡ reverse e.process.created) × Within before e.sys
