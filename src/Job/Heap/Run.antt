-- ===== src/Job/Heap/Run.antt =====
-- blueprint/job.c: the steps of job_add_task on a heap.
use pyoneer.Prelude.{◌≡◌, refl, ap, ◌∙◌, ℕ, ◌+◌, true, false, none, some, ◌==◌, arith}
use pyoneer.Job.Heap.{
  ◌>>=◌, Action, add_node, link_node, Heap, Header, Block, job_block, node_block, put, outcome,
  alloc, link_last, job_add_task_heap,
}
use pyoneer.Job.Heap.Add.{with_node}

pub alloc_run :
    (h : Heap) (block : Block)
    → (outcome h.supply).0 ≡ true
    → alloc block h
      ≡ some (
        some h.fresh,
        record {
          supply = (outcome h.supply).1;
          blocks = put h.blocks h.fresh (some block);
          fresh = h.fresh + 1;
        },
      )
unfolding alloc
alloc_run h block ok = rw ok refl

pub alloc_fail :
    (h : Heap) (block : Block)
    → (outcome h.supply).0 ≡ false
    → alloc block h ≡ some (none, record h { supply = (outcome h.supply).1 })
unfolding alloc
alloc_fail h block fails = rw fails refl

bind_run :
    {A B : Type 0} (m : Action A) (k : A → Action B) (h h' : Heap) (a : A)
    → m h ≡ some (a, h')
    → (m >>= k) h ≡ k a h'
bind_run m k h h' a e = ap (λ r. elim r [ none ↦ none | some (a, h') ↦ k a h' ]) e

-- `job_add_task` without memory for the node.
pub job_add_task_heap-fails :
    (h : Heap) (j t : ℕ)
    → (outcome h.supply).0 ≡ false
    → job_add_task_heap j t h ≡ some (false, record h { supply = (outcome h.supply).1 })
unfolding job_add_task_heap add_node link_node link_last
job_add_task_heap-fails h j t fails =
    bind_run (alloc (node_block t none)) (add_node j) h _ none
      (alloc_fail h (node_block t none) fails)

abbrev pub grown : Header → ℕ → Header
grown header n = record header { size = header.size + 1; tail = some n }

-- The first node.
pub first_run :
    (h : Heap) (j t : ℕ) (header : Header)
    → (outcome h.supply).0 ≡ true
    → (with_node t h).blocks j ≡ some (job_block header)
    → header.size ≡ 0
    → job_add_task_heap j t h
      ≡ some (
        true,
        record (with_node t h) {
          blocks =
              put
                (with_node t h).blocks
                j
                (some (job_block (record (grown header h.fresh) { head = some h.fresh })));
        },
      )
unfolding job_add_task_heap add_node link_node link_last
first_run h j t header ok is_job zero =
    bind_run (alloc (node_block t none)) (add_node j) h _ (some h.fresh)
      (alloc_run h (node_block t none) ok)
    ∙ ground (arith, is_job, zero)

-- A node behind others.
pub next_run :
    (h : Heap) (j t : ℕ) (header : Header) (l a : ℕ)
    → (outcome h.supply).0 ≡ true
    → (with_node t h).blocks j ≡ some (job_block header)
    → (header.size == 0) ≡ false
    → header.tail ≡ some l
    → (with_node t h).blocks l ≡ some (node_block a none)
    → (l == j) ≡ false
    → job_add_task_heap j t h
      ≡ some (
        true,
        record (with_node t h) {
          blocks =
              put
                (put (with_node t h).blocks l (some (node_block a (some h.fresh))))
                j
                (some (job_block (grown header h.fresh)));
        },
      )
unfolding job_add_task_heap add_node link_node link_last
next_run h j t header l a ok is_job more tail last apart =
    bind_run (alloc (node_block t none)) (add_node j) h _ (some h.fresh)
      (alloc_run h (node_block t none) ok)
    ∙ ground (arith, is_job, more, tail, last, apart)
