-- ===== src/Job/Heap/Take.antt =====
-- blueprint/job.c: the heap that job_add_task leaves.
use mathlib.Core.List.{append-nil, map-append}
use mathlib.Core.Path.{subst}
use pyoneer.Prelude.{
  ◌≡◌, refl, sym, ap, ◌∙◌, inl, inr, ℕ, ◌+◌, suc, true, false, Option, none, some, List, [], ◌∷◌,
  ◌++◌, map, length, length-append, ◌==◌, Bool-cases, arith,
}
use pyoneer.Task.{Task}
use pyoneer.Job.{Job, append_task}
use pyoneer.Job.Heap.{Heap, job_block, node_block, Blocks, put, outcome, job_add_task_heap}
use pyoneer.Job.Heap.Chain.{
  Cell, elem, elem-++, IsDistinct, chain_blocks, first, Chain, last_node, task_of, job_blocks,
  IsJob, Chain-put,
}
use pyoneer.Job.Heap.Destroy.{IsDistinct-front}
use pyoneer.Job.Heap.Owned.{Owns, Owns-store}
use pyoneer.Job.Heap.Append.{
  Chain-append, last_node-cases, last_node-elem, last_node-++, chain_blocks-++,
}
use pyoneer.Job.Heap.Add.{Holding, cell_of, with_node, with_node-Ready, with_node-header, put_self}
use pyoneer.Job.Heap.Run.{first_run, next_run}

suc-not_zero : (n : ℕ) → (suc n == 0) ≡ false
suc-not_zero n = ground arith

appended_tasks :
    (cs : List Cell) (c : Cell) (job : Job)
    → job.size ≡ length cs
    → job.tasks ≡ map task_of cs
    → (append_task job c.task).tasks ≡ map task_of (cs ++ c ∷ [])
unfolding append_task
appended_tasks [] c job size tasks = rw size refl
appended_tasks (b ∷ bs) c job size tasks = rw size (
    rw (suc-not_zero (length bs))
      (ap (λ ts. ts ++ c.task ∷ []) tasks ∙ sym (map-append task_of (b ∷ bs) (c ∷ []))))

-- The job with a task more, once its header is written.
append_task-IsJob :
    (blocks : Blocks) (j : ℕ) (cs : List Cell) (c : Cell) (job : Job)
    → Chain blocks (cs ++ c ∷ []) none
    → IsDistinct (job_blocks j (cs ++ c ∷ []))
    → job.size ≡ length cs
    → job.tasks ≡ map task_of cs
    → IsJob
        (put blocks j (
          some (
            job_block (record {
              id = job.id;
              status = job.status;
              size = job.size + 1;
              opts = job.opts;
              head = first (cs ++ c ∷ []) none;
              tail = some c.node;
            }))))
        j
        (cs ++ c ∷ [])
        (append_task job c.task)
unfolding append_task
append_task-IsJob blocks j cs c job chain distinct size tasks = record {
  header = put_self blocks j _ ∙ rw (last_node-++ cs c) refl;
  chain =
      Chain-put blocks j _ (cs ++ c ∷ []) none
        (IsDistinct-front (chain_blocks (cs ++ c ∷ [])) j distinct).1 chain;
  distinct = distinct;
  size_counts = omega (arith, size, length-append cs (c ∷ []));
  tasks_are = appended_tasks cs c job size tasks;
}

-- What `job_add_task` leaves where it succeeds.
pub record Taken (before : Blocks) (j t : ℕ) (cs : List Cell) (c : Cell) (job : Job) (h h' : Heap)
    : Type 0 where
  pub runs : job_add_task_heap j t h ≡ some (true, h')
  pub supplied : h'.supply ≡ (outcome h.supply).1
  pub is_job : IsJob h'.blocks j (cs ++ c ∷ []) (append_task job c.task)
  pub owns : Owns before (job_blocks j (cs ++ c ∷ [])) h'

elem-last : (bs : List ℕ) (j : ℕ) → elem j (bs ++ j ∷ []) ≡ true
elem-last bs j = ground (arith, elem-++ j bs (j ∷ []))

-- The blocks of the list are other blocks than those of the new node, and than the job's own.
IsDistinct-parts :
    (j : ℕ) (cs : List Cell) (c : Cell)
    → IsDistinct (job_blocks j (cs ++ c ∷ []))
    → IsDistinct (chain_blocks cs ++ chain_blocks (c ∷ []))
IsDistinct-parts j cs c distinct =
    subst IsDistinct (sym (append-nil _) ∙ chain_blocks-++ cs c [])
      (IsDistinct-front (chain_blocks (cs ++ c ∷ [])) j distinct).0

last-in_chain :
    (cs : List Cell) (c : Cell) (l : ℕ)
    → last_node cs ≡ some l
    → elem l (chain_blocks (cs ++ c ∷ [])) ≡ true
last-in_chain cs c l e =
    ap (elem l) (sym (append-nil _) ∙ chain_blocks-++ cs c [])
    ∙ ground (arith, last_node-elem cs l e, elem-++ l (chain_blocks cs) (chain_blocks (c ∷ [])))

last-mine :
    (j : ℕ) (cs : List Cell) (c : Cell) (l : ℕ)
    → last_node cs ≡ some l
    → elem l (job_blocks j (cs ++ c ∷ [])) ≡ true
last-mine j cs c l e =
    ground (arith, last-in_chain cs c l e, elem-++ l (chain_blocks (cs ++ c ∷ [])) (j ∷ []))

last-apart :
    (j : ℕ) (cs : List Cell) (c : Cell) (l : ℕ)
    → last_node cs ≡ some l
    → IsDistinct (job_blocks j (cs ++ c ∷ []))
    → (l == j) ≡ false
last-apart j cs c l e distinct = elim (Bool-cases (l == j)) [
  | inl same ↦ absurd (
      ground (
        arith,
        same,
        last-in_chain cs c l e,
        (IsDistinct-front (chain_blocks (cs ++ c ∷ [])) j distinct).1,
      ))
  | inr other ↦ other
]

module _ (before : Blocks) (j t : ℕ) (name : Option ℕ) (task : Task) (job : Job) (h : Heap)
    (ok : (outcome h.supply).0 ≡ true) where
  takes_first :
      Holding before j [] job t name task h
      → (h' : Heap) × Taken before j t [] (cell_of h.fresh t name task) job h h'
  takes_first holding =
      let ready = with_node-Ready before j [] job t name task h holding in
      let found = with_node-header before j [] job t name task h holding ∙ holding.is_job.header in
      (
        _,
        record {
          runs = first_run h j t _ ok found holding.is_job.size_counts;
          supplied = refl;
          is_job =
              append_task-IsJob (with_node t h).blocks j [] (cell_of h.fresh t name task) job
                ready.new ready.distinct holding.is_job.size_counts holding.is_job.tasks_are;
          owns =
              Owns-store before _ (with_node t h) _ j _
                (elem-last (chain_blocks (cell_of h.fresh t name task ∷ [])) j) refl refl
                ready.owns;
        },
      )

  takes_next :
      (b : Cell) (bs : List Cell)
      → Holding before j (b ∷ bs) job t name task h
      → (h' : Heap) × Taken before j t (b ∷ bs) (cell_of h.fresh t name task) job h h'
  takes_next b bs holding =
      let c = cell_of h.fresh t name task in
      let cs = b ∷ bs in
      let ready = with_node-Ready before j cs job t name task h holding in
      let found = with_node-header before j cs job t name task h holding ∙ holding.is_job.header in
      let (l, e) = last_node-cases b bs in
      let (a, last, linked) =
        Chain-append (with_node t h).blocks cs l c ready.chain ready.new
          (IsDistinct-parts j cs c ready.distinct) e in
      let mine = last-mine j cs c l e in
      let size_read = holding.is_job.size_counts in
      (
        _,
        record {
          runs =
              next_run h j t _ l a ok found (rw size_read (suc-not_zero (length bs))) e last
                (last-apart j cs c l e ready.distinct);
          supplied = refl;
          is_job =
              append_task-IsJob (put (with_node t h).blocks l (some (node_block a (some h.fresh))))
                j cs c job linked ready.distinct holding.is_job.size_counts
                holding.is_job.tasks_are;
          owns =
              Owns-store before _
                (record (with_node t h) {
                  blocks = put (with_node t h).blocks l (some (node_block a (some h.fresh)));
                })
                _ j _ (elem-last (chain_blocks (cs ++ c ∷ [])) j) refl refl
                (Owns-store before _ (with_node t h) _ l _ mine refl refl ready.owns);
        },
      )

  -- `job_add_task` with memory for the node.
  pub job_add_task_heap-takes :
      (cs : List Cell)
      → Holding before j cs job t name task h
      → (h' : Heap) × Taken before j t cs (cell_of h.fresh t name task) job h h'
  job_add_task_heap-takes [] holding = takes_first holding
  job_add_task_heap-takes (b ∷ bs) holding = takes_next b bs holding
