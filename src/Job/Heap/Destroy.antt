-- ===== src/Job/Heap/Destroy.antt =====
-- blueprint/job.c and task.c: what is freed with a task and with a job.
use pyoneer.Prelude.{
  ◌≡◌, refl, ap, ◌∙◌, ℕ, suc, false, Option, none, some, List, [], ◌∷◌, ◌++◌, length, arith,
}
use pyoneer.Task.{Task}
use pyoneer.Job.{Job}
use pyoneer.Job.Heap.{
  Heap, node_block, Blocks, put, task_destroy_heap, destroy_nodes, job_destroy_heap,
}
use pyoneer.Job.Heap.Chain.{
  Cell, elem, elem-++, IsDistinct, own_name, chain_blocks, erase, HasTask, first, Chain, job_blocks,
  IsJob, Chain-put,
}

-- The heap without some blocks.
abbrev pub without : List ℕ → Heap → Heap
without gone h = record h { blocks = erase gone h.blocks }

pub task_destroy_run :
    (h : Heap) (a : ℕ) (name : Option ℕ) (task : Task)
    → HasTask h.blocks a name task
    → IsDistinct (own_name name (a ∷ []))
    → task_destroy_heap a h ≡ some (tt, without (own_name name (a ∷ [])) h)
unfolding task_destroy_heap
task_destroy_run h a none task (is_task, text) distinct = ground (arith, is_task)
task_destroy_run h a (some b) task (is_task, text) distinct =
    ground (arith, is_task, text, distinct.0)

-- One turn of the loop.
node_destroy_run :
    (h : Heap) (fuel node a : ℕ) (name : Option ℕ) (task : Task) (next : Option ℕ) (bs : List ℕ)
    → h.blocks node ≡ some (node_block a next)
    → HasTask h.blocks a name task
    → IsDistinct (own_name name (a ∷ node ∷ bs))
    → destroy_nodes (suc fuel) (some node) h
      ≡ destroy_nodes fuel next (without (own_name name (a ∷ node ∷ [])) h)
unfolding destroy_nodes
node_destroy_run h fuel node a none task next bs is_node has distinct =
    ground (arith, is_node, distinct.0, task_destroy_run h a none task has (refl, tt))
node_destroy_run h fuel node a (some b) task next bs is_node has distinct = ground (
  arith,
  is_node,
  distinct.0,
  distinct.1.0,
  task_destroy_run h a (some b) task has (ground (arith, distinct.0), (refl, tt)),
)

-- What comes first is gone, and a list that follows is left.
Chain-without :
    (blocks : Blocks) (name : Option ℕ) (a node : ℕ) (cs : List Cell)
    → IsDistinct (own_name name (a ∷ node ∷ chain_blocks cs))
    → Chain blocks cs none
    → Chain (erase (own_name name (a ∷ node ∷ [])) blocks) cs none
Chain-without blocks none a node cs (d, (e, f)) chain =
    Chain-put _ node none cs none e (Chain-put blocks a none cs none (ground (arith, d)) chain)
Chain-without blocks (some b) a node cs (c, (d, (e, f))) chain = Chain-put _ node none cs none e (
    Chain-put _ a none cs none (ground (arith, d))
      (Chain-put blocks b none cs none (ground (arith, c)) chain))

IsDistinct-own_name :
    (name : Option ℕ) (a node : ℕ) (bs : List ℕ)
    → IsDistinct (own_name name (a ∷ node ∷ bs))
    → IsDistinct bs
IsDistinct-own_name none a node bs (d, (e, f)) = f
IsDistinct-own_name (some b) a node bs (c, (d, (e, f))) = f

erase-own_name :
    (name : Option ℕ) (a node : ℕ) (bs : List ℕ) (blocks : Blocks)
    → erase bs (erase (own_name name (a ∷ node ∷ [])) blocks)
      ≡ erase (own_name name (a ∷ node ∷ bs)) blocks
erase-own_name none a node bs blocks = refl
erase-own_name (some b) a node bs blocks = refl

pub destroy_nodes_run :
    (cs : List Cell) (h : Heap)
    → Chain h.blocks cs none
    → IsDistinct (chain_blocks cs)
    → destroy_nodes (length cs) (first cs none) h ≡ some (tt, without (chain_blocks cs) h)
unfolding destroy_nodes
destroy_nodes_run [] h chain distinct = refl
destroy_nodes_run (c ∷ cs) h (node, task, chain) distinct =
    node_destroy_run h (length cs) c.node c.at c.name c.task (first cs none) (chain_blocks cs) node
      task distinct
    ∙ destroy_nodes_run cs (without (own_name c.name (c.at ∷ c.node ∷ [])) h)
        (Chain-without h.blocks c.name c.at c.node cs distinct chain)
        (IsDistinct-own_name c.name c.at c.node (chain_blocks cs) distinct)
    ∙ ap (λ blocks. some (tt, record h { blocks = blocks }))
        (erase-own_name c.name c.at c.node (chain_blocks cs) h.blocks)

pub IsDistinct-front :
    (bs : List ℕ) (j : ℕ) → IsDistinct (bs ++ j ∷ []) → IsDistinct bs × (elem j bs ≡ false)
IsDistinct-front [] j distinct = (tt, refl)
IsDistinct-front (b ∷ bs) j (out, distinct) =
    let (front, apart) = IsDistinct-front bs j distinct in
    (
      (ground (arith, out, elem-++ b bs (j ∷ [])), front),
      ground (arith, out, apart, elem-++ b bs (j ∷ [])),
    )

erase-out :
    (bs : List ℕ) (blocks : Blocks) (a : ℕ) → elem a bs ≡ false → erase bs blocks a ≡ blocks a
erase-out [] blocks a out = refl
erase-out (b ∷ bs) blocks a out =
    erase-out bs (put blocks b none) a (ground (arith, out)) ∙ ground (arith, out)

pub erase-++ :
    (gone bs : List ℕ) (blocks : Blocks) → erase bs (erase gone blocks) ≡ erase (gone ++ bs) blocks
erase-++ [] bs blocks = refl
erase-++ (a ∷ gone) bs blocks = erase-++ gone bs (put blocks a none)

-- A job is freed with all that it owns, each block once, and nothing else is.
pub job_destroy_run :
    (h : Heap) (j : ℕ) (cs : List Cell) (job : Job)
    → IsJob h.blocks j cs job
    → job_destroy_heap j h ≡ some (tt, without (job_blocks j cs) h)
unfolding job_destroy_heap
job_destroy_run h j cs job is =
    let (front, apart) = IsDistinct-front (chain_blocks cs) j is.distinct in
    ground (
      arith,
      is.header,
      is.size_counts,
      destroy_nodes_run cs h is.chain front,
      erase-out (chain_blocks cs) h.blocks j apart,
      erase-++ (chain_blocks cs) (j ∷ []) h.blocks,
    )
