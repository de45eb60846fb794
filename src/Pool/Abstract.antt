-- ===== src/Pool/Abstract.antt =====
-- api/thread_pool.c: the pool without its representation. Two rings that hold the same connections in the
-- same order, and are both shutting down or both not, are one state of the abstract pool; what submitters
-- and workers find is a function of that state.
mod Samples
use pyoneer.Prelude.{
  ℕ, ◌+◌, ◌≤◌, ◌<◌, ◌≡◌, ◌≢◌, refl, sym, ap, ◌∙◌, Bool, true, false, not, List, [], ◌∷◌, ◌++◌,
  length, ltb, ◌==◌, if◌then◌else◌, arith, inl, inr, ◌⊎◌, Bool-cases,
}
use mathlib.Core.Path.{ap₂}
use mathlib.Core.Quot
use mathlib.Core.Quot.{Quot, Quot-set}
use native.Mathlib.Nat.{ℕ_set}
use pyoneer.Pool.{
  ThreadPool, Conn, Submit, rejected, accepted, blocked, submit_step, Work, leave, wait, take,
  work_step, queue_push, queue_pop,
}
use pyoneer.Pool.Queue.{
  IsRing, pending, queue_push-IsRing, queue_pop-IsRing, pending-push, pending-pop, length-pending,
}
use pyoneer.Pool.Specs.{View, View-set, submit_spec, work_spec, submit-view, work-view}

-- The pools with room for `cap` connections.
pub record Ring (cap : ℕ) : Type 0 where
  pub pool : ThreadPool
  pub ring : IsRing pool
  pub room : pool.qcap ≡ cap

abbrev pub view_of : {cap : ℕ} → Ring cap → View
view_of r = (pending r.pool, r.pool.shutting_down)

abbrev pub SameView : {cap : ℕ} → Ring cap → Ring cap → Type 0
SameView r r' = view_of r ≡ view_of r'

abbrev pub AbstractPool : ℕ → Type 0
AbstractPool cap = Quot (SameView {cap = cap})

submit_ring : {cap : ℕ} → Conn → Ring cap → Ring cap
submit_ring {cap} conn r =
    let (ring, room, _) = submit-view cap r.pool conn r.ring r.room in
    record { pool = (submit_step r.pool conn).0; ring = ring; room = room }

work_ring : {cap : ℕ} → Ring cap → Ring cap
work_ring {cap} r =
    let (ring, room, _) = work-view cap r.pool r.ring r.room in
    record { pool = (work_step r.pool).0; ring = ring; room = room }

Submit-set : IsSet Submit
Submit-set = hlevel

Work-set : IsSet Work
Work-set = hlevel ℕ_set

submit_ring-view :
    {cap : ℕ} (conn : Conn) (r : Ring cap)
    → ((view_of (submit_ring conn r), (submit_step r.pool conn).1)
        ≡ submit_spec cap conn (view_of r))
unfolding submit_ring
submit_ring-view {cap} conn r = (submit-view cap r.pool conn r.ring r.room).2

work_ring-view :
    {cap : ℕ} (r : Ring cap)
    → ((view_of (work_ring r), (work_step r.pool).1) ≡ work_spec (view_of r))
unfolding work_ring
work_ring-view {cap} r = (work-view cap r.pool r.ring r.room).2

-- Equal views and equal findings give one abstract result.
same_result {ℓ} :
    {A : Type ℓ} {cap : ℕ} (r r' : Ring cap) (o o' : A)
    → ◌≡◌ {A = View × A} (view_of r, o) (view_of r', o')
    → ◌≡◌ {A = AbstractPool cap × A} (Quot.mk r, o) (Quot.mk r', o')
same_result r r' o o' h = ap₂ (λ q o. (q, o)) (Quot.sound (ap (λ x. x.0) h)) (ap (λ x. x.1) h)

-- The steps of the ring on the abstract pool: they respect the view.
pub submit_abstract : {cap : ℕ} → Conn → AbstractPool cap → AbstractPool cap × Submit
submit_abstract {cap} conn =
    Quot.lift (hlevel (Quot-set, Submit-set))
      (λ r. (Quot.mk (submit_ring conn r), (submit_step r.pool conn).1))
      λ r r' same.
        same_result (submit_ring conn r) (submit_ring conn r') (submit_step r.pool conn).1
          (submit_step r'.pool conn).1
          (submit_ring-view conn r
            ∙ ap (submit_spec cap conn) same
            ∙ sym (submit_ring-view conn r'))

pub work_abstract : {cap : ℕ} → AbstractPool cap → AbstractPool cap × Work
work_abstract {cap} =
    Quot.lift (hlevel (Quot-set, Work-set)) (λ r. (Quot.mk (work_ring r), (work_step r.pool).1))
      λ r r' same.
        same_result (work_ring r) (work_ring r') (work_step r.pool).1 (work_step r'.pool).1
          (work_ring-view r ∙ ap work_spec same ∙ sym (work_ring-view r'))

pub view : {cap : ℕ} → AbstractPool cap → View
view = Quot.lift View-set view_of λ r r' same. same

submit_abstract-view :
    {cap : ℕ} (conn : Conn) (q : AbstractPool cap)
    → ◌≡◌ {A = View × Submit}
        (view (submit_abstract conn q).0, (submit_abstract conn q).1)
        (submit_spec cap conn (view q))
unfolding view submit_abstract
submit_abstract-view conn =
    Quot.ind (λ q. hlevel (View-set, Submit-set)) λ r. submit_ring-view conn r

work_abstract-view :
    {cap : ℕ} (q : AbstractPool cap)
    → ◌≡◌ {A = View × Work} (view (work_abstract q).0, (work_abstract q).1) (work_spec (view q))
unfolding view work_abstract
work_abstract-view = Quot.ind (λ q. hlevel (View-set, Work-set)) λ r. work_ring-view r

view-injective : {cap : ℕ} (q q' : AbstractPool cap) → view q ≡ view q' → q ≡ q'
unfolding view
view-injective =
    Quot.ind (λ q. hlevel Quot-set) λ r. Quot.ind (λ q'. hlevel Quot-set) λ r' same. Quot.sound same

-- The abstract pool of a ring.
pub abstract_of : {cap : ℕ} → Ring cap → AbstractPool cap
abstract_of r = Quot.mk r

-- The abstract pool, in which two rings with the same pending connections and the same shutdown are one, is a queue that is bounded by the capacity: what it is is
-- determined by its connections and by whether it is shutting down; what a submitter and a worker
-- find, and what they leave, is what the queue promises of them; and these steps are those of the ring.
pub abstract_pool-IsQueue :
    (cap : ℕ) (conn : Conn) (q q' : AbstractPool cap) (r : Ring cap)
    → (view q ≡ view q' → q ≡ q')
      × (◌≡◌ {A = View × Submit}
          (view (submit_abstract conn q).0, (submit_abstract conn q).1)
          (submit_spec cap conn (view q)))
      × (◌≡◌ {A = View × Work} (view (work_abstract q).0, (work_abstract q).1) (work_spec (view q)))
      × ((submit_abstract conn (abstract_of r)).1 ≡ (submit_step r.pool conn).1)
      × ((work_abstract (abstract_of r)).1 ≡ (work_step r.pool).1)
      × (view (abstract_of r) ≡ view_of r)
unfolding view submit_abstract work_abstract abstract_of
abstract_pool-IsQueue cap conn q q' r =
    (view-injective q q', submit_abstract-view conn q, work_abstract-view q, refl, refl, refl)
