-- ===== src/Server/Accept/Steps.antt =====
-- api/server.c: one look at the queue of the pool, in the code's cases.
use pyoneer.Prelude.{◌≡◌, ◌⊎◌, true, false, arith}
use pyoneer.Pool.{ThreadPool, Conn, rejected, accepted, blocked, submit_step}

-- The three things that a look at the queue can find.
pub submit_step-cases :
    (pool : ThreadPool) (conn : Conn)
    → (((submit_step pool conn).1 ≡ rejected) × (pool.shutting_down ≡ true))
      ⊎ (((submit_step pool conn).1 ≡ blocked) × (pool.shutting_down ≡ false))
      ⊎ (((submit_step pool conn).1 ≡ accepted) × (pool.shutting_down ≡ false))
unfolding submit_step
submit_step-cases pool conn = ground arith

pub submit_step-shut :
    (pool : ThreadPool) (conn : Conn)
    → pool.shutting_down ≡ true
    → (submit_step pool conn).1 ≡ rejected
unfolding submit_step
submit_step-shut pool conn h = ground (arith, h)
