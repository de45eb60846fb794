-- ===== src/Main/Connections.antt =====
-- src/main.c: the descriptors of the connections that the loop of the server accepts.
use pyoneer.Prelude.{
  ℕ, ◌≡◌, refl, Bool, true, false, ◌||◌, Option, none, some, List, [], ◌∷◌, ◌++◌, ◌==◌, arith,
  if◌then◌else◌,
}
use pyoneer.Server.{
  Sys, set_fd, Listener, Server, close_fd, unlink_path, server_listeners_destroy, server_destroy,
}
use pyoneer.Server.Listeners.{destroy-closes}
use pyoneer.Main.{open_accepted, close_accepted, closed_by}

abbrev elem : ℕ → List ℕ → Bool
elem n [] = false
elem n (fd ∷ fds) = (n == fd) || elem n fds

elem-++ : (n : ℕ) (fds more : List ℕ) → elem n (fds ++ more) ≡ elem n fds || elem n more
elem-++ n [] more = refl
elem-++ n (fd ∷ fds) more = ground (arith, elem-++ n fds more)

close_accepted-at :
    (fds : List ℕ) (sys : Sys) (n : ℕ)
    → (close_accepted fds sys).open_fds n ≡ (if elem n fds then false else sys.open_fds n)
unfolding close_accepted
close_accepted-at [] sys n = refl
close_accepted-at (fd ∷ fds) sys n = ground (arith, close_accepted-at fds (set_fd fd false sys) n)

open_accepted-at :
    (fds : List ℕ) (sys : Sys) (n : ℕ)
    → (open_accepted fds sys).open_fds n ≡ (if elem n fds then true else sys.open_fds n)
unfolding open_accepted
open_accepted-at [] sys n = refl
open_accepted-at (fd ∷ fds) sys n = ground (arith, open_accepted-at fds (set_fd fd true sys) n)

-- What is opened in one system is open in another.
abbrev pub OpenIn : Sys → Sys → Type 0
OpenIn sys sys' = (n : ℕ) → sys.open_fds n ≡ true → sys'.open_fds n ≡ true

destroy-OpenIn :
    (ls : List Listener) (sys sys' : Sys)
    → OpenIn sys sys'
    → OpenIn (server_listeners_destroy ls sys) (server_listeners_destroy ls sys')
unfolding server_listeners_destroy close_fd unlink_path
destroy-OpenIn [] sys sys' within = within
destroy-OpenIn (l ∷ ls) sys sys' within =
    destroy-OpenIn ls (unlink_path l.cfg (close_fd l.fd sys))
      (unlink_path l.cfg (close_fd l.fd sys')) λ n opened. ground (arith, opened, within n)

close_accepted-OpenIn : (fds : List ℕ) (sys : Sys) → OpenIn (close_accepted fds sys) sys
close_accepted-OpenIn fds sys n opened = ground (arith, opened, close_accepted-at fds sys n)

-- The connections that were accepted are closed with those from before.
served-OpenIn :
    (old fds : List ℕ) (sys : Sys)
    → OpenIn (close_accepted (old ++ fds) (open_accepted fds sys)) (close_accepted old sys)
served-OpenIn old fds sys n opened = ground (
  arith,
  opened,
  close_accepted-at (old ++ fds) (open_accepted fds sys) n,
  open_accepted-at fds sys n,
  close_accepted-at old sys n,
  elem-++ n old fds,
)

-- A server that is destroyed after it served leaves no more open than one that is destroyed before.
pub closed_by-served :
    (server : Option Server) (old fds : List ℕ) (sys : Sys)
    → OpenIn (closed_by server (old ++ fds) (open_accepted fds sys)) (closed_by server old sys)
unfolding closed_by server_destroy
closed_by-served none old fds sys = served-OpenIn old fds sys
closed_by-served (some server) old fds sys =
    destroy-OpenIn server.listeners (close_accepted (old ++ fds) (open_accepted fds sys))
      (close_accepted old sys) (served-OpenIn old fds sys)

-- What is open behind it is none of the connections.
pub closed_by-parts :
    (server : Option Server) (fds : List ℕ) (sys : Sys) (n : ℕ)
    → (closed_by server fds sys).open_fds n ≡ true
    → (elem n fds ≡ false) × ((closed_by server [] sys).open_fds n ≡ true)
unfolding closed_by close_accepted server_destroy
closed_by-parts none fds sys n opened = (
  ground (arith, opened, close_accepted-at fds sys n),
  ground (arith, opened, close_accepted-at fds sys n),
)
closed_by-parts (some server) fds sys n opened = (
  ground (
    arith,
    close_accepted-at fds sys n,
    (destroy-closes server.listeners (close_accepted fds sys) n opened).0,
  ),
  destroy-OpenIn server.listeners (close_accepted fds sys) sys (close_accepted-OpenIn fds sys) n
      opened,
)

pub close_accepted-keeps :
    (fds : List ℕ) (sys : Sys) (n : ℕ)
    → elem n fds ≡ false
    → sys.open_fds n ≡ true
    → (close_accepted fds sys).open_fds n ≡ true
close_accepted-keeps fds sys n out opened = ground (arith, out, opened, close_accepted-at fds sys n)
