-- ===== src/Pool/Specs.antt =====
-- api/thread_pool.c: what the queue of the pool promises, and that a step of the ring keeps it.
use pyoneer.Prelude.{
  ℕ, ◌≤◌, ◌<◌, ◌≡◌, refl, sym, ap, ◌∙◌, Bool, true, false, List, [], ◌∷◌, ◌++◌, length, ◌==◌,
  if◌then◌else◌, arith, inl, inr, ◌⊎◌,
}
use native.Mathlib.Nat.{ℕ_set}
use pyoneer.Pool.{
  ThreadPool, Conn, Submit, rejected, accepted, blocked, submit_step, Work, leave, wait, take,
  work_step, queue_push, queue_pop,
}
use pyoneer.Pool.Queue.{
  IsRing, pending, queue_push-IsRing, queue_pop-IsRing, pending-push, pending-pop, length-pending,
}

-- The pending connections, oldest first, and whether the pool is shutting down.
abbrev pub View : Type 0
View = List Conn × Bool

pub View-set : IsSet View
View-set = hlevel ℕ_set

-- What the queue promises of a submit.
abbrev pub submit_spec : ℕ → Conn → View → View × Submit
submit_spec cap conn (xs, down) =
    if down
    then ((xs, down), rejected)
    else if length xs == cap
    then ((xs, down), blocked)
    else ((xs ++ conn ∷ [], down), accepted)

-- And of a look by a worker.
abbrev pub work_spec : View → View × Work
work_spec ([], down) = (([], down), if down then leave else wait)
work_spec (x ∷ xs, down) = ((xs, down), take x)

submit_outcomes :
    (pool : ThreadPool) (conn : Conn)
    → pool.qlen ≤ pool.qcap
    → ((submit_step pool conn ≡ (pool, rejected)) × (pool.shutting_down ≡ true))
      ⊎ ((submit_step pool conn ≡ (pool, blocked))
          × (pool.shutting_down ≡ false)
          × (pool.qlen ≡ pool.qcap))
      ⊎ ((submit_step pool conn ≡ (queue_push pool conn, accepted))
          × (pool.shutting_down ≡ false)
          × (pool.qlen < pool.qcap))
unfolding submit_step
submit_outcomes pool conn h = ground arith

work_outcomes :
    (pool : ThreadPool)
    → ((work_step pool ≡ (pool, wait)) × (pool.shutting_down ≡ false) × (pool.qlen ≡ 0))
      ⊎ ((work_step pool ≡ (pool, leave)) × (pool.shutting_down ≡ true) × (pool.qlen ≡ 0))
      ⊎ ((work_step pool ≡ ((queue_pop pool).0, take (queue_pop pool).1)) × (0 < pool.qlen))
unfolding work_step
work_outcomes pool = ground arith

-- What a queue promises, in the cases.
spec-rejects :
    (cap : ℕ) (conn : Conn) (xs : List Conn) (down : Bool)
    → down ≡ true
    → ((xs, down), rejected) ≡ submit_spec cap conn (xs, down)
spec-rejects cap conn xs down h = rw h refl

spec-blocks :
    (cap : ℕ) (conn : Conn) (xs : List Conn) (down : Bool)
    → down ≡ false
    → length xs ≡ cap
    → ((xs, down), blocked) ≡ submit_spec cap conn (xs, down)
spec-blocks cap conn xs down h full = ground (arith, h, full)

spec-accepts :
    (cap : ℕ) (conn : Conn) (xs : List Conn) (down : Bool)
    → down ≡ false
    → length xs < cap
    → ((xs ++ conn ∷ [], down), accepted) ≡ submit_spec cap conn (xs, down)
spec-accepts cap conn xs down h room = ground (arith, h, room)

push_kept :
    (pool : ThreadPool) (conn : Conn)
    → ((queue_push pool conn).qcap ≡ pool.qcap)
      × ((queue_push pool conn).shutting_down ≡ pool.shutting_down)
unfolding queue_push
push_kept pool conn = (refl, refl)

pop_kept :
    (pool : ThreadPool)
    → ((queue_pop pool).0.qcap ≡ pool.qcap)
      × ((queue_pop pool).0.shutting_down ≡ pool.shutting_down)
unfolding queue_pop
pop_kept pool = (refl, refl)

-- What a step leaves is a ring, and what it leaves and finds is what the queue promises.
pub submit-view :
    (cap : ℕ) (pool : ThreadPool) (conn : Conn)
    → IsRing pool
    → pool.qcap ≡ cap
    → IsRing (submit_step pool conn).0
      × ((submit_step pool conn).0.qcap ≡ cap)
      × ((
        (pending (submit_step pool conn).0, (submit_step pool conn).0.shutting_down),
        (submit_step pool conn).1,
      )
          ≡ submit_spec cap conn (pending pool, pool.shutting_down))
submit-view cap pool conn r room = elim (submit_outcomes pool conn r.len_le) [
  | inl (e, down) ↦ rw e (r, room, spec-rejects cap conn (pending pool) pool.shutting_down down)
  | inr (inl (e, open_, full)) ↦ rw e (
    r,
    room,
    spec-blocks cap conn (pending pool) pool.shutting_down open_
        (length-pending pool ∙ full ∙ room),
  )
  | inr (inr (e, open_, l)) ↦ rw e (
    queue_push-IsRing pool conn r l,
    (push_kept pool conn).0 ∙ room,
    ap (λ xs. ((xs, (queue_push pool conn).shutting_down), accepted)) (pending-push pool conn r l)
        ∙ ap (λ down. ((pending pool ++ conn ∷ [], down), accepted)) (push_kept pool conn).1
        ∙ spec-accepts cap conn (pending pool) pool.shutting_down open_
            (omega (arith, length-pending pool, room)),
  )
]

empty-nil : (pool : ThreadPool) → pool.qlen ≡ 0 → pending pool ≡ []
unfolding pending
empty-nil pool h = rw h refl

pub work-view :
    (cap : ℕ) (pool : ThreadPool)
    → IsRing pool
    → pool.qcap ≡ cap
    → IsRing (work_step pool).0
      × ((work_step pool).0.qcap ≡ cap)
      × (((pending (work_step pool).0, (work_step pool).0.shutting_down), (work_step pool).1)
          ≡ work_spec (pending pool, pool.shutting_down))
work-view cap pool r room = elim (work_outcomes pool) [
  | inl (e, open_, empty) ↦ rw e (r, room, rw (empty-nil pool empty, open_) refl)
  | inr (inl (e, down, empty)) ↦ rw e (r, room, rw (empty-nil pool empty, down) refl)
  | inr (inr (e, l)) ↦ rw e (
    queue_pop-IsRing pool r l,
    (pop_kept pool).0 ∙ room,
    ap (λ down. ((pending (queue_pop pool).0, down), take (queue_pop pool).1)) (pop_kept pool).1
        ∙ ap (λ xs. work_spec (xs, pool.shutting_down)) (sym (pending-pop pool l)),
  )
]
