-- ===== src/Main/Parts.antt =====
-- src/main.c: the lists of the parts that are created and freed.
use pyoneer.Prelude.{◌≡◌, refl, Option, none, some, List, [], ◌++◌}
use mathlib.Core.List.{reverse, append-nil}
use pyoneer.Site.{Site}
use pyoneer.Logger.{Logger}
use pyoneer.Pyoneer.{Pyoneer}
use pyoneer.Server.{Server}
use pyoneer.Main.{Part, part_site, part_logger, part_pyoneer, part_server, Process, freed_if}

-- The parts that are there.
abbrev pub made : Process → List Part
made p =
    freed_if p.site part_site
    ++ freed_if p.logger part_logger
    ++ freed_if p.pyoneer part_pyoneer
    ++ freed_if p.server part_server

-- `made` with nothing at its end.
pub ends_three : (xs ys : List Part) → (((xs ++ []) ++ []) ++ []) ++ ys ≡ ((xs ++ ys) ++ []) ++ []
ends_three xs ys = simp append-nil refl

pub ends_two : (xs ys : List Part) → ((xs ++ []) ++ []) ++ ys ≡ (xs ++ ys) ++ []
ends_two xs ys = simp append-nil refl

pub ends_one : (xs ys : List Part) → (xs ++ []) ++ ys ≡ xs ++ ys
ends_one xs ys = simp append-nil refl

-- The parts are freed in the order opposite to that of their creation.
pub freed-reverse :
    (site : Option Site) (logger : Option Logger) (y : Option Pyoneer) (server : Option Server)
    → freed_if server part_server
        ++ freed_if y part_pyoneer
        ++ freed_if logger part_logger
        ++ freed_if site part_site
      ≡ reverse (
          freed_if site part_site
          ++ freed_if logger part_logger
          ++ freed_if y part_pyoneer
          ++ freed_if server part_server)
freed-reverse none l y v = go l y v
  where
    go :
        (logger : Option Logger) (y : Option Pyoneer) (server : Option Server)
        → freed_if server part_server
            ++ freed_if y part_pyoneer
            ++ freed_if logger part_logger
            ++ []
          ≡ reverse (
              freed_if logger part_logger ++ freed_if y part_pyoneer ++ freed_if server part_server)
    go none none none = refl
    go none none (some v) = refl
    go none (some y) none = refl
    go none (some y) (some v) = refl
    go (some l) none none = refl
    go (some l) none (some v) = refl
    go (some l) (some y) none = refl
    go (some l) (some y) (some v) = refl
freed-reverse (some w) none none none = refl
freed-reverse (some w) none none (some v) = refl
freed-reverse (some w) none (some y) none = refl
freed-reverse (some w) none (some y) (some v) = refl
freed-reverse (some w) (some l) none none = refl
freed-reverse (some w) (some l) none (some v) = refl
freed-reverse (some w) (some l) (some y) none = refl
freed-reverse (some w) (some l) (some y) (some v) = refl
