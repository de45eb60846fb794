-- ===== src/Job/Heap/Add.antt =====
-- blueprint/job.c: job_add_task on a heap does what job_add_task does on the list.
use mathlib.Core.List.{append_assoc}
use mathlib.Core.Path.{subst}
use pyoneer.Prelude.{
  ◌≡◌, refl, sym, ap, ◌∙◌, ℕ, ◌+◌, false, Option, none, some, List, [], ◌∷◌, ◌++◌, arith,
}
use pyoneer.Task.{Task}
use pyoneer.Job.{Job}
use pyoneer.Job.Heap.{Heap, Block, node_block, Blocks, put, outcome}
use pyoneer.Job.Heap.Chain.{
  Cell, elem, elem-++, IsDistinct, own_name, chain_blocks, HasTask, Chain, job_blocks, IsJob,
  elem-own_name, HasText-put, Chain-put,
}
use pyoneer.Job.Heap.Owned.{Owns, fresh-out, Owns-alloc, Owns-cong, IsDistinct-insert}
use pyoneer.Job.Heap.Append.{own_name-++, chain_blocks-++}

-- The blocks of a job and of a task that is not in it yet.
abbrev pub with_task : ℕ → List Cell → ℕ → Option ℕ → List ℕ
with_task j cs t name = chain_blocks cs ++ own_name name (t ∷ j ∷ [])

pub record Holding (before : Blocks) (j : ℕ) (cs : List Cell) (job : Job) (t : ℕ) (name : Option ℕ)
    (task : Task) (h : Heap) : Type 0 where
  pub is_job : IsJob h.blocks j cs job
  pub has_task : HasTask h.blocks t name task
  pub distinct : IsDistinct (with_task j cs t name)
  pub owns : Owns before (with_task j cs t name) h

abbrev pub cell_of : ℕ → ℕ → Option ℕ → Task → Cell
cell_of n t name task = record { node = n; at = t; name = name; task = task }

-- The blocks with the new node.
job_blocks-snoc :
    (j : ℕ) (cs : List Cell) (c : Cell)
    → job_blocks j (cs ++ c ∷ []) ≡ chain_blocks cs ++ own_name c.name (c.at ∷ c.node ∷ j ∷ [])
job_blocks-snoc j cs c = chain_blocks-++ cs c (j ∷ [])

with_task-split :
    (j : ℕ) (cs : List Cell) (t : ℕ) (name : Option ℕ) (bs : List ℕ)
    → chain_blocks cs ++ own_name name (t ∷ bs) ≡ (chain_blocks cs ++ own_name name (t ∷ [])) ++ bs
with_task-split j cs t name bs =
    ap (λ xs. chain_blocks cs ++ xs) (sym (own_name-++ name (t ∷ []) bs))
    ∙ sym (append_assoc (chain_blocks cs) (own_name name (t ∷ [])) bs)

IsDistinct-snoc :
    (j n : ℕ) (cs : List Cell) (t : ℕ) (name : Option ℕ) (task : Task)
    → elem n (with_task j cs t name) ≡ false
    → IsDistinct (with_task j cs t name)
    → IsDistinct (job_blocks j (cs ++ cell_of n t name task ∷ []))
IsDistinct-snoc j n cs t name task out distinct =
    subst IsDistinct
      (sym
        (job_blocks-snoc j cs (cell_of n t name task) ∙ with_task-split j cs t name (n ∷ j ∷ [])))
      (IsDistinct-insert (chain_blocks cs ++ own_name name (t ∷ [])) (j ∷ []) n
        (subst (λ xs. elem n xs ≡ false) (with_task-split j cs t name (j ∷ [])) out)
        (subst IsDistinct (with_task-split j cs t name (j ∷ [])) distinct))

elem-snoc :
    (j n : ℕ) (cs : List Cell) (t : ℕ) (name : Option ℕ) (task : Task) (a : ℕ)
    → elem a (n ∷ with_task j cs t name) ≡ elem a (job_blocks j (cs ++ cell_of n t name task ∷ []))
elem-snoc j n cs t name task a =
    let front = chain_blocks cs ++ own_name name (t ∷ []) in
    ground (
      arith,
      ap (elem a) (with_task-split j cs t name (j ∷ [])),
      ap (elem a)
          (job_blocks-snoc j cs (cell_of n t name task) ∙ with_task-split j cs t name (n ∷ j ∷ [])),
      elem-++ a front (j ∷ []),
      elem-++ a front (n ∷ j ∷ []),
    )

-- The heap behind the allocation of the node.
abbrev pub with_node : ℕ → Heap → Heap
with_node t h = record {
  supply = (outcome h.supply).1;
  blocks = put h.blocks h.fresh (some (node_block t none));
  fresh = h.fresh + 1;
}

pub put_self : (blocks : Blocks) (a : ℕ) (v : Option Block) → put blocks a v a ≡ v
put_self blocks a v = ground arith

put-two :
    (blocks : Blocks) (a t j : ℕ) (v : Option Block)
    → elem a (t ∷ j ∷ []) ≡ false
    → (put blocks a v t ≡ blocks t) × (put blocks a v j ≡ blocks j)
put-two blocks a t j v out = (ground (arith, out), ground (arith, out))

-- What the new node finds: the list, itself with its task, and blocks that are all different.
pub record Ready (before : Blocks) (j : ℕ) (cs : List Cell) (c : Cell) (h : Heap) : Type 0 where
  pub chain : Chain h.blocks cs none
  pub new : Chain h.blocks (c ∷ []) none
  pub distinct : IsDistinct (job_blocks j (cs ++ c ∷ []))
  pub owns : Owns before (job_blocks j (cs ++ c ∷ [])) h

module _ (before : Blocks) (j : ℕ) (cs : List Cell) (job : Job) (t : ℕ) (name : Option ℕ)
    (task : Task) (h : Heap) (holding : Holding before j cs job t name task h) where
  node_out : elem h.fresh (with_task j cs t name) ≡ false
  node_out = fresh-out before (with_task j cs t name) h holding.owns

  node_behind : elem h.fresh (own_name name (t ∷ j ∷ [])) ≡ false
  node_behind =
      ground (arith, elem-++ h.fresh (chain_blocks cs) (own_name name (t ∷ j ∷ [])), node_out)

  node_apart : elem h.fresh (t ∷ j ∷ []) ≡ false
  node_apart = elem-own_name h.fresh name (t ∷ j ∷ []) node_behind

  abbrev cell : Cell
  cell = cell_of h.fresh t name task

  pub with_node-Ready : Ready before j cs cell (with_node t h)
  with_node-Ready = record {
    chain =
        Chain-put h.blocks h.fresh _ cs none
          (ground (arith, elem-++ h.fresh (chain_blocks cs) (own_name name (t ∷ j ∷ [])), node_out))
          holding.is_job.chain;
    new = (
      put_self h.blocks h.fresh (some (node_block t none)),
      (
        (put-two h.blocks h.fresh t j (some (node_block t none)) node_apart).0 ∙ holding.has_task.0,
        HasText-put h.blocks h.fresh _ name task.name (t ∷ j ∷ []) node_behind holding.has_task.1,
      ),
      tt,
    );
    distinct = IsDistinct-snoc j h.fresh cs t name task node_out holding.distinct;
    owns =
        Owns-cong before (h.fresh ∷ with_task j cs t name) (job_blocks j (cs ++ cell ∷ []))
          (with_node t h) (elem-snoc j h.fresh cs t name task)
          (Owns-alloc before (with_task j cs t name) h (with_node t h) (node_block t none) refl refl
            holding.owns);
  }

  pub with_node-header : (with_node t h).blocks j ≡ h.blocks j
  with_node-header = (put-two h.blocks h.fresh t j (some (node_block t none)) node_apart).1
