-- ===== src/Pool/Destroy.antt =====
-- api/thread_pool.c: the destruction of the pool.
use pyoneer.Prelude.{◌+◌, ◌≡◌, refl, sym, ap, ◌∙◌, true, List, replicate, some, arith}
use pyoneer.Pool.Turns.{
  System, Turn, work, shutdown, turn, run, thread_pool_destroy, thread_pool_destroy-some,
  thread_pool_destroy-none_left,
}
use pyoneer.Pool.Threads.{
  IsPool, IsDraining, drain-workers, drained, run-IsPool, turn-IsPool, shut-run,
}

-- The destruction of a pool, whatever state it is in: it returns behind as many turns of the workers as
-- there are connections pending and workers left; and where it returns, every connection that was accepted has been taken.
pub thread_pool_destroy-drains :
    (s : System)
    → IsPool s
    → ((t : System) × (thread_pool_destroy (replicate (s.pool.qlen + s.workers) work) s ≡ some t))
      × ((ts : List Turn) (t : System) → thread_pool_destroy ts s ≡ some t → t.taken ≡ s.submitted)
thread_pool_destroy-drains s p = (
  (
    run (turn s shutdown) turns,
    thread_pool_destroy-some turns s
        (drain-workers (s.pool.qlen + s.workers) (turn s shutdown) draining),
  ),
  λ ts t e. after ts t (thread_pool_destroy-none_left ts s t e),
)
  where
    turns : List Turn
    turns = replicate (s.pool.qlen + s.workers) work

    down : (turn s shutdown).pool.shutting_down ≡ true
    down = unfold turn in refl

    draining : IsDraining (s.pool.qlen + s.workers) (turn s shutdown)
    draining =
        unfold turn in
        record {
          down = refl;
          nobody = λ e. (p.left_drained (omega (arith, p.staffed))).1;
          left = refl;
        }

    after :
        (ts : List Turn) (t : System)
        → (t ≡ run (turn s shutdown) ts) × (t.workers ≡ 0)
        → t.taken ≡ s.submitted
    after ts t (same, nobody) =
        let q : IsPool (run (turn s shutdown) ts) =
          run-IsPool (turn s shutdown) ts (turn-IsPool s shutdown p) in
        let nobody' : (run (turn s shutdown) ts).workers ≡ 0 =
          ap (λ u. u.workers) (sym same) ∙ nobody in
        ap (λ u. u.taken) same
        ∙ drained q (q.left_drained (omega (arith, q.staffed, nobody'))).1
        ∙ shut-run (turn s shutdown) ts down
        ∙ (unfold turn in refl)
