-- ===== src/Server/Accept/Keeps.antt =====
-- api/server.c: what each step of the loop keeps of the account of connections.
use pyoneer.Prelude.{
  ℕ, ◌+◌, ◌≡◌, refl, sym, ap, ◌∙◌, true, false, List, [], ◌∷◌, ◌++◌, arith, ◌⊎◌, inl, inr,
}
use mathlib.Core.List.{append_assoc, append-nil}
use pyoneer.Pool.{Conn, rejected, accepted, submit_step}
use pyoneer.Pool.Turns.{System, work, shutdown, turn, submit_turn}
use pyoneer.Pool.Threads.{IsPool, pop_kept, submit_turn-IsPool, turn-IsPool}
use pyoneer.Server.Accept.Steps.{submit_step-cases}
use pyoneer.Server.Accept.{
  Serving, Other, worker_turn, set_stop, shut_pool, other, others, Progress, waiting, onward,
  conclude, submit_call, Arrival, no_arrival, accept_failed, arrival, arrived, accept_each,
}

-- The connections that were accepted are those that were submitted, and behind them those that were
-- closed; one is closed only once the pool is shutting down.
pub record IsLedger (s : Serving) (more : List Conn) : Type 0 where
  pub pool : IsPool s.system
  pub account : s.seen ≡ (s.system.submitted ++ s.closed) ++ more
  pub shut : (s.closed ≡ []) ⊎ (s.system.pool.shutting_down ≡ true)

work-kept :
    (s : System)
    → ((turn s work).submitted ≡ s.submitted)
      × ((turn s work).pool.shutting_down ≡ s.pool.shutting_down)
unfolding turn
work-kept s = ground (arith, pop_kept s.pool)

other-IsLedger :
    (s : Serving) (o : Other) (more : List Conn) → IsLedger s more → IsLedger (other s o) more
unfolding other
other-IsLedger s worker_turn more l = record {
  pool = turn-IsPool s.system work l.pool;
  account = l.account ∙ ap (λ cs. (cs ++ s.closed) ++ more) (sym (work-kept s.system).0);
  shut = ground (arith, l.shut, (work-kept s.system).1);
}
other-IsLedger s set_stop more l = record { pool = l.pool; account = l.account; shut = l.shut }
other-IsLedger s shut_pool more l = record {
  pool = turn-IsPool s.system shutdown l.pool;
  account = l.account;
  shut = inr refl;
}

pub others-IsLedger :
    (s : Serving) (os : List Other) (more : List Conn)
    → IsLedger s more
    → IsLedger (others s os) more
unfolding others
others-IsLedger s [] more l = l
others-IsLedger s (o ∷ os) more l = others-IsLedger (other s o) os more (other-IsLedger s o more l)

-- What is to hold of a step: one more connection is on its way while it waits.
abbrev pub Keeps : Progress → Type 0
Keeps (waiting s) = (conn : Conn) × IsLedger s (conn ∷ []) × (s.system.pool.shutting_down ≡ false)
Keeps (onward s) = IsLedger s []

accepted-submits :
    (s : System) (conn : Conn)
    → (submit_step s.pool conn).1 ≡ accepted
    → ((submit_turn s conn).submitted ≡ s.submitted ++ conn ∷ [])
unfolding submit_turn submit_step
accepted-submits s conn e = ground (arith, e)

rejected-Keeps :
    (s : Serving) (conn : Conn) (later : Progress)
    → IsLedger s (conn ∷ [])
    → s.system.pool.shutting_down ≡ true
    → Keeps (conclude rejected later conn s)
unfolding conclude
rejected-Keeps s conn later l down = record {
  pool = l.pool;
  account = l.account ∙ append_assoc s.system.submitted s.closed (conn ∷ []) ∙ sym (append-nil _);
  shut = inr down;
}

accepted-Keeps :
    (s : Serving) (conn : Conn) (later : Progress)
    → IsLedger s (conn ∷ [])
    → s.system.pool.shutting_down ≡ false
    → (submit_step s.system.pool conn).1 ≡ accepted
    → Keeps (conclude accepted later conn s)
unfolding conclude
accepted-Keeps s conn later l open_ e = elim l.shut [
  | inl none_closed ↦ record {
    pool = submit_turn-IsPool s.system conn l.pool;
    account =
        l.account
        ∙ ap (λ cs. (s.system.submitted ++ cs) ++ conn ∷ []) none_closed
        ∙ ap (λ cs. cs ++ conn ∷ []) (append-nil s.system.submitted)
        ∙ sym (accepted-submits s.system conn e)
        ∙ sym (append-nil _)
        ∙ ap (λ cs. (submit_turn s.system conn).submitted ++ cs) (sym none_closed)
        ∙ sym (append-nil _);
    shut = inl none_closed;
  }
  | inr down ↦ absurd (cc)
]

conclude-Keeps :
    (s : Serving) (conn : Conn) (later : Progress)
    → IsLedger s (conn ∷ [])
    → (s.system.pool.shutting_down ≡ false → Keeps later)
    → Keeps (conclude (submit_step s.system.pool conn).1 later conn s)
unfolding conclude
conclude-Keeps s conn later l wait = elim (submit_step-cases s.system.pool conn) [
  | inl (e, down) ↦ rw e (rejected-Keeps s conn later l down)
  | inr (inl (e, open_)) ↦ rw e (wait open_)
  | inr (inr (e, open_)) ↦ rw e (accepted-Keeps s conn later l open_ e)
]

submit_call-Keeps :
    (os : List (List Other)) (conn : Conn) (s : Serving)
    → IsLedger s (conn ∷ [])
    → Keeps (submit_call os conn s)
unfolding submit_call
submit_call-Keeps [] conn s l = conclude-Keeps s conn (waiting s) l λ open_. (conn, l, open_)
submit_call-Keeps (o ∷ os) conn s l =
    let s' = others s o in
    let l' = others-IsLedger s o (conn ∷ []) l in
    conclude-Keeps s' conn (submit_call os conn s') l' λ _. submit_call-Keeps os conn s' l'

arrived-IsLedger :
    (s : Serving) (conn : Conn) → IsLedger s [] → IsLedger (arrived conn s) (conn ∷ [])
arrived-IsLedger s conn l = record {
  pool = l.pool;
  account = ap (λ cs. cs ++ conn ∷ []) (l.account ∙ append-nil _);
  shut = l.shut;
}

Keeps-bind :
    (p : Progress) (k : Serving → Progress)
    → Keeps p
    → ((s : Serving) → IsLedger s [] → Keeps (k s))
    → Keeps (elim p [ waiting s ↦ waiting s | onward s ↦ k s ])
Keeps-bind (waiting s) k l next = l
Keeps-bind (onward s) k l next = next s l

pub accept_each-Keeps :
    (i : ℕ) (as' : List Arrival) (s : Serving) → IsLedger s [] → Keeps (accept_each i as' s)
unfolding accept_each
accept_each-Keeps i [] s l = l
accept_each-Keeps i (no_arrival ∷ more) s l = accept_each-Keeps (i + 1) more s l
accept_each-Keeps i (accept_failed ∷ more) s l = accept_each-Keeps (i + 1) more s l
accept_each-Keeps i (arrival fd os ∷ more) s l =
    let conn : Conn = record { fd = fd; listener_index = i } in
    Keeps-bind (submit_call os conn (arrived conn s)) (accept_each (i + 1) more)
      (submit_call-Keeps os conn (arrived conn s) (arrived-IsLedger s conn l))
      λ s' l'. accept_each-Keeps (i + 1) more s' l'
