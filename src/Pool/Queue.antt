-- ===== src/Pool/Queue.antt =====
-- api/thread_pool.c: the ring of connections as a queue.
use pyoneer.Prelude.{
  ℕ, zero, suc, ◌+◌, ◌-◌, ◌%◌, ◌≤◌, ◌<◌, ◌≡◌, ◌≢◌, refl, sym, ap, ◌∙◌, Bool, false, List, [], ◌∷◌,
  ◌++◌, some, arith, length, length-set, length-replicate, get_or, set, get_or-set_self,
  get_or-set_ne,
}
use mathlib.Core.Path.{ap₂}
use native.Mathlib.Nat.{mod-add-mod}
use pyoneer.Pool.{ThreadPool, Conn, no_conn, queue_push, queue_pop, thread_pool_init}

-- What holds of the ring while the mutex is free.
pub record IsRing (pool : ThreadPool) : Type 0 where
  pub room : length pool.queue ≡ pool.qcap
  pub head_in : pool.qhead < pool.qcap
  pub len_le : pool.qlen ≤ pool.qcap
  pub tail_at : pool.qtail ≡ (pool.qhead + pool.qlen) % pool.qcap

-- The connections from index `h` on, `n` of them, oldest first.
abbrev from_index : List Conn → ℕ → ℕ → ℕ → List Conn
from_index buf cap h zero = []
from_index buf cap h (suc n) = get_or buf h no_conn ∷ from_index buf cap ((h + 1) % cap) n

-- The queue that the ring holds.
unfoldable pub pending : ThreadPool → List Conn
pending pool = from_index pool.queue pool.qcap pool.qhead pool.qlen

length-from_index : (n h cap : ℕ) (buf : List Conn) → length (from_index buf cap h n) ≡ n
length-from_index zero h cap buf = refl
length-from_index (suc n) h cap buf = ap suc (length-from_index n ((h + 1) % cap) cap buf)

step_mod : (h n cap : ℕ) → ((h + 1) % cap + n) % cap ≡ (h + suc n) % cap
step_mod h n cap = mod-add-mod (h + 1) cap n ∙ ap (λ (k : ℕ). k % cap) (omega arith)

apart_mod : (h m cap : ℕ) → h < cap → 0 < m → m < cap → (h + m) % cap ≢ h
apart_mod h m cap l p q = grind arith

mod_in : (h cap : ℕ) → 0 < cap → h % cap < cap
mod_in h cap l = omega arith

-- A write behind the last connection changes none of them.
from_index-set :
    (n h cap t : ℕ) (buf : List Conn) (v : Conn)
    → h < cap
    → n < cap
    → t ≡ (h + n) % cap
    → from_index (set buf t v) cap h n ≡ from_index buf cap h n
from_index-set zero h cap t buf v l m e = refl
from_index-set (suc n) h cap t buf v l m e =
    ap₂ (λ c cs. c ∷ cs)
      (get_or-set_ne buf v no_conn
        (λ same. apart_mod h (suc n) cap l (omega arith) m (sym e ∙ same)))
      (from_index-set n ((h + 1) % cap) cap t buf v (mod_in (h + 1) cap (omega arith)) (omega arith)
        (e ∙ sym (step_mod h n cap)))

-- One more connection stands at the end.
from_index-suc :
    (n h cap t : ℕ) (buf : List Conn)
    → h < cap
    → t ≡ (h + n) % cap
    → from_index buf cap h (suc n) ≡ from_index buf cap h n ++ get_or buf t no_conn ∷ []
from_index-suc zero h cap t buf l e = ap (λ (k : ℕ). get_or buf k no_conn ∷ []) (grind arith)
from_index-suc (suc n) h cap t buf l e =
    ap (λ cs. get_or buf h no_conn ∷ cs)
      (from_index-suc n ((h + 1) % cap) cap t buf (mod_in (h + 1) cap (omega arith))
        (e ∙ sym (step_mod h n cap)))

pub queue_push-IsRing :
    (pool : ThreadPool) (conn : Conn)
    → IsRing pool
    → pool.qlen < pool.qcap
    → IsRing (queue_push pool conn)
unfolding queue_push
queue_push-IsRing pool conn r l = record {
  room = length-set pool.queue pool.qtail conn ∙ r.room;
  head_in = r.head_in;
  len_le = omega arith;
  tail_at =
      ap (λ (k : ℕ). (k + 1) % pool.qcap) r.tail_at
      ∙ mod-add-mod (pool.qhead + pool.qlen) pool.qcap 1
      ∙ ap (λ (k : ℕ). k % pool.qcap) (omega arith);
}

-- A connection that is pushed to a ring that is not full stands behind those that are pending.
pub pending-push :
    (pool : ThreadPool) (conn : Conn)
    → IsRing pool
    → pool.qlen < pool.qcap
    → pending (queue_push pool conn) ≡ pending pool ++ conn ∷ []
unfolding pending queue_push
pending-push pool conn r l =
    ap (λ (n : ℕ). from_index buf pool.qcap pool.qhead n) {y = suc pool.qlen} (omega arith)
    ∙ from_index-suc pool.qlen pool.qhead pool.qcap pool.qtail buf r.head_in r.tail_at
    ∙ ap₂ (λ cs c. cs ++ c ∷ [])
        (from_index-set pool.qlen pool.qhead pool.qcap pool.qtail pool.queue conn r.head_in l
          r.tail_at)
        (get_or-set_self pool.queue pool.qtail conn no_conn in_room)
  where
    buf : List Conn
    buf = set pool.queue pool.qtail conn

    in_room : pool.qtail < length pool.queue
    in_room = omega (arith, r, mod_in (pool.qhead + pool.qlen) pool.qcap (omega arith))

pub queue_pop-IsRing : (pool : ThreadPool) → IsRing pool → 0 < pool.qlen → IsRing (queue_pop pool).0
unfolding queue_pop
queue_pop-IsRing pool r l = record {
  room = r.room;
  head_in = mod_in (pool.qhead + 1) pool.qcap (omega arith);
  len_le = omega arith;
  tail_at =
      r.tail_at
      ∙ ap (λ (k : ℕ). (pool.qhead + k) % pool.qcap) (omega arith)
      ∙ sym (step_mod pool.qhead (pool.qlen - 1) pool.qcap);
}

-- A pop of a ring that is not empty takes the oldest of the pending connections.
pub pending-pop :
    (pool : ThreadPool)
    → 0 < pool.qlen
    → pending pool ≡ (queue_pop pool).1 ∷ pending (queue_pop pool).0
unfolding pending queue_pop
pending-pop pool l =
    ap (λ (n : ℕ). from_index pool.queue pool.qcap pool.qhead n) {y = suc (pool.qlen - 1)}
      (omega arith)

pub length-pending : (pool : ThreadPool) → length (pending pool) ≡ pool.qlen
unfolding pending
length-pending pool = length-from_index pool.qlen pool.qhead pool.qcap pool.queue

pub init-IsRing :
    (n cap : ℕ) (server allocated : Bool) (pool : ThreadPool)
    → thread_pool_init n cap server allocated ≡ some pool
    → IsRing pool × (pending pool ≡ []) × (0 < pool.nthreads) × (pool.shutting_down ≡ false)
unfolding thread_pool_init pending
init-IsRing n cap server allocated pool e = ground (arith, length-replicate cap no_conn)

-- A ring refines a queue: it holds as many connections as its length says, a push where it is not full adds one behind
-- them, a pop where it is not empty takes the first of them, and what is left is a ring again.
pub queue_refinement :
    (pool : ThreadPool) (conn : Conn)
    → IsRing pool
    → (length (pending pool) ≡ pool.qlen)
      × (pool.qlen < pool.qcap
          → IsRing (queue_push pool conn)
            × (pending (queue_push pool conn) ≡ pending pool ++ conn ∷ []))
      × (0 < pool.qlen
          → IsRing (queue_pop pool).0
            × (pending pool ≡ (queue_pop pool).1 ∷ pending (queue_pop pool).0))
queue_refinement pool conn r = (
  length-pending pool,
  (λ l. (queue_push-IsRing pool conn r l, pending-push pool conn r l)),
  λ l. (queue_pop-IsRing pool r l, pending-pop pool l),
)
