-- ===== src/Pool/Threads.antt =====
-- api/thread_pool.c: the threads of the pool over any order of their turns.
pub mod Samples
use pyoneer.Prelude.{
  ℕ, zero, suc, ◌+◌, ◌-◌, ◌≤◌, ◌<◌, ◌≡◌, ◌≢◌, refl, sym, ap, ◌∙◌, Bool, true, false, List, [], ◌∷◌,
  ◌++◌, replicate, Bool-cases, Option, none, some, arith, length, ◌⊎◌, inl, inr, if◌then◌else◌, ltb,
}
use mathlib.Core.List.{append_assoc, append-nil}
use pyoneer.Pool.{
  ThreadPool, Conn, thread_pool_init, queue_push, queue_pop, Submit, rejected, accepted, blocked,
  submit_step, Work, leave, wait, take, work_step, thread_pool_shutdown,
}
use pyoneer.Pool.Turns.{
  System, Turn, submit, work, shutdown, turn, run, thread_pool_destroy, thread_pool_destroy-some,
  thread_pool_destroy-none_left, submit_turn, work_turn, pushed, popped, one_left,
  submit_turn-cases, work_turn-cases,
}
use pyoneer.Pool.Queue.{
  init-IsRing, IsRing, pending, queue_push-IsRing, pending-push, queue_pop-IsRing, pending-pop,
  length-pending,
}

pub record IsPool (s : System) : Type 0 where
  pub ring : IsRing s.pool
  pub kept : s.submitted ≡ s.taken ++ pending s.pool
  pub staffed : 0 < s.pool.nthreads
  pub workers_le : s.workers ≤ s.pool.nthreads
  pub left_drained : s.workers < s.pool.nthreads → (s.pool.shutting_down ≡ true) × (s.pool.qlen ≡ 0)

push_kept :
    (pool : ThreadPool) (conn : Conn)
    → ((queue_push pool conn).nthreads ≡ pool.nthreads)
      × ((queue_push pool conn).shutting_down ≡ pool.shutting_down)
unfolding queue_push
push_kept pool conn = (refl, refl)

pub pop_kept :
    (pool : ThreadPool)
    → ((queue_pop pool).0.nthreads ≡ pool.nthreads)
      × ((queue_pop pool).0.shutting_down ≡ pool.shutting_down)
      × ((queue_pop pool).0.qlen ≡ pool.qlen - 1)
unfolding queue_pop
pop_kept pool = (refl, refl, refl)

pushed-IsPool :
    (s : System) (conn : Conn)
    → IsPool s
    → s.pool.shutting_down ≡ false
    → s.pool.qlen ≢ s.pool.qcap
    → IsPool (pushed s conn)
unfolding queue_push
pushed-IsPool s conn p open_ room = record {
  ring = queue_push-IsRing s.pool conn p.ring (omega arith);
  kept =
      ap (λ cs. cs ++ conn ∷ []) p.kept
      ∙ append_assoc s.taken (pending s.pool) (conn ∷ [])
      ∙ ap (λ cs. s.taken ++ cs) (sym (pending-push s.pool conn p.ring (omega arith)));
  staffed = p.staffed;
  workers_le = p.workers_le;
  left_drained = λ h. ground (arith, p.left_drained h);
}

popped-IsPool : (s : System) → IsPool s → 0 < s.pool.qlen → IsPool (popped s)
unfolding queue_pop
popped-IsPool s p h = record {
  ring = queue_pop-IsRing s.pool p.ring h;
  kept =
      p.kept
      ∙ ap (λ cs. s.taken ++ cs) (pending-pop s.pool h)
      ∙ sym (append_assoc s.taken ((queue_pop s.pool).1 ∷ []) (pending (queue_pop s.pool).0));
  staffed = p.staffed;
  workers_le = p.workers_le;
  left_drained = λ l. absurd (omega (arith, p.left_drained l));
}

one_left-IsPool :
    (s : System) → IsPool s → s.pool.shutting_down ≡ true → s.pool.qlen ≡ 0 → IsPool (one_left s)
one_left-IsPool s p down drained = record {
  ring = p.ring;
  kept = p.kept;
  staffed = p.staffed;
  workers_le = omega (arith, p.workers_le);
  left_drained = λ h. (down, drained);
}

pub submit_turn-IsPool : (s : System) (conn : Conn) → IsPool s → IsPool (submit_turn s conn)
submit_turn-IsPool s conn p = elim (submit_turn-cases s conn) [
  | inl e ↦ rw e p
  | inr (e, open_, room) ↦ rw e (pushed-IsPool s conn p open_ room)
]

work_turn-IsPool : (s : System) → IsPool s → IsPool (work_turn s)
work_turn-IsPool s p = elim (work_turn-cases s) [
  | inl (e, _, _) ↦ rw e p
  | inr (inl (e, down, drained)) ↦ rw e (one_left-IsPool s p down drained)
  | inr (inr (e, some_left)) ↦ rw e (popped-IsPool s p some_left)
]

pub turn-IsPool : (s : System) (t : Turn) → IsPool s → IsPool (turn s t)
unfolding turn pending
turn-IsPool s (submit conn) p = submit_turn-IsPool s conn p
turn-IsPool s work p = elim (Bool-cases (ltb 0 s.workers)) [
  | inl e ↦ rw e (work_turn-IsPool s p)
  | inr e ↦ rw e p
]
turn-IsPool s shutdown p = record {
  ring = record {
    room = p.ring.room;
    head_in = p.ring.head_in;
    len_le = p.ring.len_le;
    tail_at = p.ring.tail_at;
  };
  kept = p.kept;
  staffed = p.staffed;
  workers_le = p.workers_le;
  left_drained = λ h. (refl, (p.left_drained h).1);
}

pub run-IsPool : (s : System) (ts : List Turn) → IsPool s → IsPool (run s ts)
unfolding run
run-IsPool s [] p = p
run-IsPool s (t ∷ ts) p = run-IsPool (turn s t) ts (turn-IsPool s t p)

-- The pool as `thread_pool_create` gives it, with all its workers started.
abbrev pub new_system : ThreadPool → System
new_system pool = record { pool = pool; workers = pool.nthreads; submitted = []; taken = [] }

pub new_system-IsPool :
    (n cap : ℕ) (server allocated : Bool) (pool : ThreadPool)
    → thread_pool_init n cap server allocated ≡ some pool
    → IsPool (new_system pool)
new_system-IsPool n cap server allocated pool e =
    let (ring, empty, staffed, _) = init-IsRing n cap server allocated pool e in
    record {
      ring = ring;
      kept = sym empty;
      staffed = staffed;
      workers_le = omega arith;
      left_drained = λ h. absurd (omega arith);
    }

pending-nil : (pool : ThreadPool) → pool.qlen ≡ 0 → pending pool ≡ []
unfolding pending
pending-nil pool e = rw e

pub drained : {s : System} → IsPool s → s.pool.qlen ≡ 0 → s.taken ≡ s.submitted
drained {s} p e =
    sym (append-nil s.taken) ∙ ap (λ cs. s.taken ++ cs) (sym (pending-nil s.pool e)) ∙ sym p.kept

-- Once the pool is shutting down, it stays so and accepts nothing.
pub shut-turn :
    (s : System) (t : Turn)
    → s.pool.shutting_down ≡ true
    → ((turn s t).pool.shutting_down ≡ true) × ((turn s t).submitted ≡ s.submitted)
unfolding turn
shut-turn s (submit conn) h = elim (submit_turn-cases s conn) [
  | inl e ↦ rw e (h, refl)
  | inr (e, open_, _) ↦ cc
]
shut-turn s work h = ground (arith, pop_kept s.pool)
shut-turn s shutdown h = (refl, refl)

pub shut-run :
    (s : System) (ts : List Turn) → s.pool.shutting_down ≡ true → (run s ts).submitted ≡ s.submitted
unfolding run
shut-run s [] h = refl
shut-run s (t ∷ ts) h = shut-run (turn s t) ts (shut-turn s t h).0 ∙ (shut-turn s t h).1

-- What a worker's turn leaves to do in a pool that is shutting down.
pub record IsDraining (k : ℕ) (s : System) : Type 0 where
  pub down : s.pool.shutting_down ≡ true
  pub nobody : s.workers ≡ 0 → s.pool.qlen ≡ 0
  pub left : s.pool.qlen + s.workers ≡ k

work-IsDraining : (k : ℕ) (s : System) → IsDraining (suc k) s → IsDraining k (turn s work)
unfolding turn
work-IsDraining k s d = ground (arith, pop_kept s.pool)

pub drain-workers : (k : ℕ) (s : System) → IsDraining k s → (run s (replicate k work)).workers ≡ 0
unfolding run
drain-workers zero s d = omega arith
drain-workers (suc k) s d = drain-workers k (turn s work) (work-IsDraining k s d)

module _ (n cap : ℕ) (server allocated : Bool) (pool : ThreadPool)
    (created : thread_pool_init n cap server allocated ≡ some pool) (ts : List Turn) where
  abbrev reached : System
  reached = run (new_system pool) ts

  reached-IsPool : IsPool reached
  reached-IsPool =
      run-IsPool (new_system pool) ts (new_system-IsPool n cap server allocated pool created)

  -- From a pool that was created, over any turns of submitters, workers and a shutdown: the
  -- connections that were accepted are those that were taken, in the order in which they were
  -- accepted, and behind them those that are pending; there are never more of these than the queue
  -- has room for.
  pub no_connection_lost :
      ((run (new_system pool) ts).submitted
        ≡ (run (new_system pool) ts).taken ++ pending (run (new_system pool) ts).pool)
      × (length (pending (run (new_system pool) ts).pool) ≤ (run (new_system pool) ts).pool.qcap)
  no_connection_lost =
      (reached-IsPool.kept, omega (arith, length-pending reached.pool, reached-IsPool.ring.len_le))

  -- A worker leaves only from a pool that is shutting down and empty: once any worker has left, over
  -- any turns from the creation of the pool, every accepted connection has been taken.
  pub left_workers_drained :
      (run (new_system pool) ts).workers < (run (new_system pool) ts).pool.nthreads
      → ((run (new_system pool) ts).taken ≡ (run (new_system pool) ts).submitted)
        × ((run (new_system pool) ts).pool.shutting_down ≡ true)
  left_workers_drained h =
      let (down, empty) = reached-IsPool.left_drained h in (drained reached-IsPool empty, down)

  abbrev stopped : System
  stopped = turn reached shutdown

  stopped-IsDraining : IsDraining (reached.pool.qlen + reached.workers) stopped
  unfolding turn
  stopped-IsDraining = record {
    down = refl;
    nobody = λ e. (reached-IsPool.left_drained (omega (arith, reached-IsPool.staffed))).1;
    left = refl;
  }

  -- A shutdown ends: from any state that a created pool reaches, the shutdown and then as many turns
  -- of the workers as there are connections pending and workers left bring the last worker to leave,
  -- so that the joins of `thread_pool_destroy` return; and whatever turns follow the shutdown, no
  -- connection is accepted after it.
  pub shutdown_drains :
      ((run (turn (run (new_system pool) ts) shutdown) (
          replicate
            ((run (new_system pool) ts).pool.qlen + (run (new_system pool) ts).workers)
            work)).workers
        ≡ 0)
      × ((us : List Turn)
          → (run (turn (run (new_system pool) ts) shutdown) us).submitted
            ≡ (run (new_system pool) ts).submitted)
  shutdown_drains = (
    drain-workers (reached.pool.qlen + reached.workers) stopped stopped-IsDraining,
    λ us. unfold turn in shut-run stopped us stopped-IsDraining.down,
  )
