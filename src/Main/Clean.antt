-- ===== src/Main/Clean.antt =====
-- src/main.c: a process that can still be cleaned up, and the parts that are added to it.
use pyoneer.Prelude.{
  ℕ, ◌≡◌, refl, ap, ◌∙◌, String, true, false, Option, none, some, List, [], ◌∷◌, ◌++◌, inl, inr,
  arith, Option-cases,
}
use pyoneer.Site.{Site}
use pyoneer.Logger.{Logger}
use pyoneer.Pyoneer.{Pyoneer}
use pyoneer.Server.{Sys, Server, ServerConfig, server_create}
use pyoneer.Server.Listeners.{failed_create_leaks_nothing, destroyed_server_leaks_nothing}
use pyoneer.Options.{AppConfig}
use pyoneer.Main.Stages.{After, stage_fails}
use pyoneer.Main.{
  part_site, part_logger, part_pyoneer, part_server, Process, ProgramAnswers, add_site, add_logger,
  add_pyoneer, server_config_of, add_server, freed_if, closed_by, close_accepted,
}
use pyoneer.Main.Connections.{closed_by-parts, close_accepted-keeps}
use pyoneer.Main.Parts.{made, ends_three, ends_two, ends_one}

-- No descriptor is open that was not before.
abbrev pub Within : Sys → Sys → Type 0
Within before after = (n : ℕ) → after.open_fds n ≡ true → before.open_fds n ≡ true

pub record IsClean (before : Sys) (p : Process) : Type 0 where
  pub logged : p.created ≡ made p
  pub within : Within before (closed_by p.server p.connections p.sys)

-- Before a stage, the parts that come later are not there.
abbrev pub NoServer : Process → Type 0
NoServer p = p.server ≡ none

abbrev pub NoPyoneer : Process → Type 0
NoPyoneer p = (p.pyoneer ≡ none) × NoServer p

abbrev pub NoLogger : Process → Type 0
NoLogger p = (p.logger ≡ none) × NoPyoneer p

module _ (before : Sys) where
  pub add_site-After :
      (site : Option Site) (p : Process)
      → IsClean before p
      → p.site ≡ none
      → NoLogger p
      → After (IsClean before) NoLogger (add_site site p)
  add_site-After none p c e q = stage_fails (IsClean before) NoLogger p c
  add_site-After (some site) p c e (l, (y, v)) = (
    record {
      logged = ap (λ ps. ps ++ part_site ∷ []) c.logged ∙ rw (e, l, y, v) refl;
      within = c.within;
    },
    λ _. (l, (y, v)),
  )

  pub add_logger-After :
      (logger : Option Logger) (p : Process)
      → IsClean before p
      → NoLogger p
      → After (IsClean before) NoPyoneer (add_logger logger p)
  add_logger-After none p c q = stage_fails (IsClean before) NoPyoneer p c
  add_logger-After (some logger) p c (l, (y, v)) = (
    record {
      logged =
          ap (λ ps. ps ++ part_logger ∷ []) c.logged
          ∙ rw (l, y, v) (ends_three (freed_if p.site part_site) (part_logger ∷ []));
      within = c.within;
    },
    λ _. (y, v),
  )

  pub add_pyoneer-After :
      (pyoneer : Option Pyoneer) (p : Process)
      → IsClean before p
      → NoPyoneer p
      → After (IsClean before) NoServer (add_pyoneer pyoneer p)
  add_pyoneer-After none p c q = stage_fails (IsClean before) NoServer p c
  add_pyoneer-After (some pyoneer) p c (y, v) = (
    record {
      logged =
          ap (λ ps. ps ++ part_pyoneer ∷ []) c.logged
          ∙ rw (y, v)
              (ends_two (freed_if p.site part_site ++ freed_if p.logger part_logger)
                (part_pyoneer ∷ []));
      within = c.within;
    },
    λ _. v,
  )

  -- A server that is created over the system of a clean process, or the failure to create it.
  pub add_server-After :
      (made_ : Option Server × Sys) (p : Process)
      → IsClean before p
      → NoServer p
      → Within before (closed_by made_.0 p.connections made_.1)
      → After (IsClean before) (λ _. Unit) (add_server made_ p)
  add_server-After (none, sys) p c v within =
      (record { logged = c.logged; within = rw v within }, λ _. tt)
  add_server-After (some server, sys) p c v within = (
    record {
      logged =
          ap (λ ps. ps ++ part_server ∷ []) c.logged
          ∙ rw v (
              ends_one
                (freed_if p.site part_site
                  ++ freed_if p.logger part_logger
                  ++ freed_if p.pyoneer part_pyoneer)
                (part_server ∷ []));
      within = within;
    },
    λ _. tt,
  )

pub server_create-Within :
    (ans : ProgramAnswers) (cfg : AppConfig) (token : String) (before sys : Sys) (fds : List ℕ)
    → (server_create ans.server (server_config_of cfg token) sys).1.undefined ≡ false
    → Within before (close_accepted fds sys)
    → Within before (
        closed_by
          (server_create ans.server (server_config_of cfg token) sys).0
          fds
          (server_create ans.server (server_config_of cfg token) sys).1)
unfolding server_config_of closed_by close_accepted
server_create-Within ans cfg token before sys fds defined within n h =
    let config : ServerConfig = server_config_of cfg token in
    let made_ : Option Server × Sys = server_create ans.server config sys in
    let (apart, h') = closed_by-parts made_.0 fds made_.1 n h in
    within n (
      close_accepted-keeps fds sys n apart (elim (Option-cases made_.0) [
        | inl e ↦
            failed_create_leaks_nothing ans.server config sys n e defined (ground (arith, h', e))
        | inr (s, e) ↦
            destroyed_server_leaks_nothing ans.server config sys made_.1 s _ n refl (rw e refl)
              (ground (arith, h', e))
      ]))
