-- ===== src/Pool/Abstract/Samples.antt =====
-- api/thread_pool.c: two rings with room for two connections that hold the same one at other places.
use pyoneer.Prelude.{◌≡◌, refl, [], ◌∷◌, arith}
use pyoneer.Pool.{Submit, Work, submit_step, work_step, no_conn}
use pyoneer.Pool.Threads.Samples.{fresh_pool, conn, wrapped_pool, wrapped_pool-IsRing}
use pyoneer.Pool.Queue.{IsRing}
use pyoneer.Pool.Specs.{View, submit_spec, work_spec}
use pyoneer.Pool.Abstract.{
  Ring, view_of, submit_abstract, work_abstract, view, abstract_of, abstract_pool-IsQueue,
}

abbrev wrapped : Ring 2
wrapped = record { pool = wrapped_pool; ring = wrapped_pool-IsRing; room = refl }

shifted-IsRing : IsRing (record fresh_pool { queue = conn 4 ∷ no_conn ∷ []; qtail = 1; qlen = 1 })
shifted-IsRing = record {
  room = ground arith;
  head_in = ground arith;
  len_le = ground arith;
  tail_at = ground arith;
}

abbrev shifted : Ring 2
shifted = record {
  pool = record fresh_pool { queue = conn 4 ∷ no_conn ∷ []; qtail = 1; qlen = 1 };
  ring = shifted-IsRing;
  room = refl;
}

abstract_pool-IsQueue_example :
    (view (abstract_of wrapped) ≡ view (abstract_of shifted)
      → abstract_of wrapped ≡ abstract_of shifted)
    × (◌≡◌ {A = View × Submit}
        (
          view (submit_abstract (conn 6) (abstract_of wrapped)).0,
          (submit_abstract (conn 6) (abstract_of wrapped)).1,
        )
        (submit_spec 2 (conn 6) (view (abstract_of wrapped))))
    × (◌≡◌ {A = View × Work}
        (view (work_abstract (abstract_of wrapped)).0, (work_abstract (abstract_of wrapped)).1)
        (work_spec (view (abstract_of wrapped))))
    × ((submit_abstract (conn 6) (abstract_of wrapped)).1 ≡ (submit_step wrapped_pool (conn 6)).1)
    × ((work_abstract (abstract_of wrapped)).1 ≡ (work_step wrapped_pool).1)
    × (view (abstract_of wrapped) ≡ view_of wrapped)
abstract_pool-IsQueue_example =
    abstract_pool-IsQueue 2 (conn 6) (abstract_of wrapped) (abstract_of shifted) wrapped
