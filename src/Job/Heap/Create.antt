-- ===== src/Job/Heap/Create.antt =====
-- blueprint/task.c: the blocks of a new task beside those of a job.
use pyoneer.Prelude.{
  ◌≡◌, refl, ◌∙◌, ℕ, ◌+◌, String, true, false, Option, none, some, List, [], ◌∷◌, ◌==◌, arith,
}
use pyoneer.Memory.{Supply}
use pyoneer.Task.{Task, ready}
use pyoneer.Job.{Job}
use pyoneer.Job.Heap.{Heap, Block, task_block, text_block, Blocks, put}
use pyoneer.Job.Heap.Chain.{Cell, elem, elem-++, chain_blocks, job_blocks, IsJob, Chain-put}
use pyoneer.Job.Heap.Owned.{Owns, fresh-out, Owns-alloc, Owns-store, Owns-cong, IsDistinct-insert}
use pyoneer.Job.Heap.Add.{Holding, with_task, put_self}

pub job_apart :
    (a j : ℕ) (cs : List Cell)
    → elem a (job_blocks j cs) ≡ false
    → ((a == j) ≡ false) × (elem a (chain_blocks cs) ≡ false)
job_apart a j cs out = (
  ground (arith, out, elem-++ a (chain_blocks cs) (j ∷ [])),
  ground (arith, out, elem-++ a (chain_blocks cs) (j ∷ [])),
)

put-other :
    (blocks : Blocks) (a b : ℕ) (v : Option Block) → (a == b) ≡ false → put blocks a v b ≡ blocks b
put-other blocks a b v out = rw out refl

-- A write to a block of another's leaves a job as it is.
pub IsJob-put :
    (blocks : Blocks) (a j : ℕ) (v : Option Block) (cs : List Cell) (job : Job)
    → elem a (job_blocks j cs) ≡ false
    → IsJob blocks j cs job
    → IsJob (put blocks a v) j cs job
IsJob-put blocks a j v cs job out is =
    let (other, apart) = job_apart a j cs out in
    record {
      header = put-other blocks a j v other ∙ is.header;
      chain = Chain-put blocks a v cs none apart is.chain;
      distinct = is.distinct;
      size_counts = is.size_counts;
      tasks_are = is.tasks_are;
    }

elem-with_task :
    (a j t : ℕ) (cs : List Cell) → elem a (t ∷ job_blocks j cs) ≡ elem a (with_task j cs t none)
elem-with_task a j t cs =
    ground (arith, elem-++ a (chain_blocks cs) (j ∷ []), elem-++ a (chain_blocks cs) (t ∷ j ∷ []))

elem-with_name :
    (a j t n : ℕ) (cs : List Cell)
    → elem a (n ∷ with_task j cs t none) ≡ elem a (with_task j cs t (some n))
elem-with_name a j t n cs =
    ground (
      arith,
      elem-++ a (chain_blocks cs) (t ∷ j ∷ []),
      elem-++ a (chain_blocks cs) (n ∷ t ∷ j ∷ []),
    )

task_mine : (j t : ℕ) (cs : List Cell) (name : Option ℕ) → elem t (with_task j cs t name) ≡ true
task_mine j t cs none = ground (arith, elem-++ t (chain_blocks cs) (t ∷ j ∷ []))
task_mine j t cs (some n) = ground (arith, elem-++ t (chain_blocks cs) (n ∷ t ∷ j ∷ []))

-- The task is allocated before its name.
abbrev with_block : Heap → Supply → Heap
with_block h s = record {
  supply = s;
  blocks = put h.blocks h.fresh (some (task_block ready none));
  fresh = h.fresh + 1;
}

abbrev pub named : Option String → Task
named name = record { status = ready; name = name }

elem-tail : (a b : ℕ) (bs : List ℕ) → elem a (b ∷ bs) ≡ false → elem a bs ≡ false
elem-tail a b bs out = ground (arith, out)

not_next : (a : ℕ) → (a == a + 1) ≡ false
not_next a = ground arith

module _ (before : Blocks) (j : ℕ) (cs : List Cell) (job : Job) (h : Heap) (s : Supply)
    (is : IsJob h.blocks j cs job) (owns : Owns before (job_blocks j cs) h) where
  task_out : elem h.fresh (job_blocks j cs) ≡ false
  task_out = fresh-out before (job_blocks j cs) h owns

  pub with_block-Holding : Holding before j cs job h.fresh none (named none) (with_block h s)
  with_block-Holding = record {
    is_job = IsJob-put h.blocks h.fresh j _ cs job task_out is;
    has_task = (put_self h.blocks h.fresh _, tt);
    distinct = IsDistinct-insert (chain_blocks cs) (j ∷ []) h.fresh task_out is.distinct;
    owns =
        Owns-cong before (h.fresh ∷ job_blocks j cs) (with_task j cs h.fresh none) (with_block h s)
          (λ a. elem-with_task a j h.fresh cs)
          (Owns-alloc before (job_blocks j cs) h (with_block h s) (task_block ready none) refl refl
            owns);
  }

  -- The name could not be copied.
  pub nameless-Holding :
      (s' : Supply)
      → Holding before j cs job h.fresh none (named none) (record (with_block h s) {
        supply = s';
        blocks = put (with_block h s).blocks h.fresh (some (task_block ready none));
      })
  nameless-Holding s' =
      let held = with_block-Holding in
      record {
        is_job = IsJob-put (with_block h s).blocks h.fresh j _ cs job task_out held.is_job;
        has_task = (put_self (with_block h s).blocks h.fresh _, tt);
        distinct = held.distinct;
        owns =
            Owns-store before (with_task j cs h.fresh none) (with_block h s) _ h.fresh _
              (task_mine j h.fresh cs none) refl refl held.owns;
      }

  abbrev with_name : String → Supply → Heap
  with_name name s' = record {
    supply = s';
    blocks = put (with_block h s).blocks (h.fresh + 1) (some (text_block name));
    fresh = h.fresh + 1 + 1;
  }

  name_out : elem (h.fresh + 1) (with_task j cs h.fresh none) ≡ false
  name_out = fresh-out before (with_task j cs h.fresh none) (with_block h s) with_block-Holding.owns

  name_out_job : elem (h.fresh + 1) (h.fresh ∷ job_blocks j cs) ≡ false
  name_out_job = elem-with_task (h.fresh + 1) j h.fresh cs ∙ name_out

  pub named-Holding :
      (name : String) (s' : Supply)
      → Holding before j cs job h.fresh
          (some (h.fresh + 1))
          (named (some name))
          (record (with_name name s') {
            blocks =
                put
                  (with_name name s').blocks
                  h.fresh
                  (some (task_block ready (some (h.fresh + 1))));
          })
  named-Holding name s' =
      let held = with_block-Holding in
      record {
        is_job = IsJob-put (with_name name s').blocks h.fresh j _ cs job task_out (
            IsJob-put (with_block h s).blocks (h.fresh + 1) j _ cs job
              (elem-tail (h.fresh + 1) h.fresh (job_blocks j cs) name_out_job) held.is_job);
        has_task = (
          put_self (with_name name s').blocks h.fresh _,
          put-other (with_name name s').blocks h.fresh (h.fresh + 1) _ (not_next h.fresh)
              ∙ put_self (with_block h s).blocks (h.fresh + 1) _,
        );
        distinct =
            IsDistinct-insert (chain_blocks cs) (h.fresh ∷ j ∷ []) (h.fresh + 1) name_out
              held.distinct;
        owns =
            Owns-store before (with_task j cs h.fresh (some (h.fresh + 1))) (with_name name s') _
              h.fresh _ (task_mine j h.fresh cs (some (h.fresh + 1))) refl refl
              (Owns-cong before ((h.fresh + 1) ∷ with_task j cs h.fresh none) _ (with_name name s')
                (λ a. elem-with_name a j h.fresh (h.fresh + 1) cs)
                (Owns-alloc before (with_task j cs h.fresh none) (with_block h s)
                  (with_name name s') (text_block name) refl refl held.owns));
      }
