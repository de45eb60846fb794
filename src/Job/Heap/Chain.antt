-- ===== src/Job/Heap/Chain.antt =====
-- blueprint/job.c: what it means that the blocks of a heap are a job with its tasks.
use pyoneer.Prelude.{
  ◌≡◌, refl, ℕ, String, Bool, false, ◌||◌, Option, none, some, List, [], ◌∷◌, ◌++◌, map, length,
  ◌==◌, arith,
}
use pyoneer.Task.{Task}
use pyoneer.Job.{Job}
use pyoneer.Job.Heap.{Block, job_block, node_block, task_block, text_block, Blocks, put}

-- A node of a list with its task: their addresses, and what the task is.
pub record Cell : Type 0 where
  pub node : ℕ
  pub at : ℕ
  pub name : Option ℕ
  pub task : Task

abbrev pub elem : ℕ → List ℕ → Bool
elem a [] = false
elem a (b ∷ bs) = (b == a) || elem a bs

abbrev pub IsDistinct : List ℕ → Type 0
IsDistinct [] = Unit
IsDistinct (a ∷ bs) = (elem a bs ≡ false) × IsDistinct bs

-- The blocks that a task and a list own, in the order in which they are freed.
abbrev pub own_name : Option ℕ → List ℕ → List ℕ
own_name none bs = bs
own_name (some a) bs = a ∷ bs

abbrev pub chain_blocks : List Cell → List ℕ
chain_blocks [] = []
chain_blocks (c ∷ cs) = own_name c.name (c.at ∷ c.node ∷ chain_blocks cs)

abbrev pub erase : List ℕ → Blocks → Blocks
erase [] blocks = blocks
erase (a ∷ bs) blocks = erase bs (put blocks a none)

abbrev pub HasText : Blocks → Option ℕ → Option String → Type 0
HasText blocks none none = Unit
HasText blocks (some a) (some t) = blocks a ≡ some (text_block t)
HasText blocks name t = ⊥

abbrev pub HasTask : Blocks → ℕ → Option ℕ → Task → Type 0
HasTask blocks a name task =
    (blocks a ≡ some (task_block task.status name)) × HasText blocks name task.name

-- The pointer to a list that goes on with `last` behind its nodes.
abbrev pub first : List Cell → Option ℕ → Option ℕ
first [] last = last
first (c ∷ cs) last = some c.node

abbrev pub Chain : Blocks → List Cell → Option ℕ → Type 0
Chain blocks [] last = Unit
Chain blocks (c ∷ cs) last =
    (blocks c.node ≡ some (node_block c.at (first cs last)))
    × HasTask blocks c.at c.name c.task
    × Chain blocks cs last

-- The last node.
abbrev pub last_node : List Cell → Option ℕ
last_node [] = none
last_node (c ∷ []) = some c.node
last_node (c ∷ d ∷ ds) = last_node (d ∷ ds)

abbrev pub task_of : Cell → Task
task_of c = c.task

abbrev pub job_blocks : ℕ → List Cell → List ℕ
job_blocks j cs = chain_blocks cs ++ j ∷ []

-- The block at `j` and the list that it points to are the job.
pub record IsJob (blocks : Blocks) (j : ℕ) (cs : List Cell) (job : Job) : Type 0 where
  pub header :
      blocks j
      ≡ some (
          job_block (record {
            id = job.id;
            status = job.status;
            size = job.size;
            opts = job.opts;
            head = first cs none;
            tail = last_node cs;
          }))
  pub chain : Chain blocks cs none
  pub distinct : IsDistinct (job_blocks j cs)
  pub size_counts : job.size ≡ length cs
  pub tasks_are : job.tasks ≡ map task_of cs

pub elem-own_name :
    (a : ℕ) (name : Option ℕ) (bs : List ℕ) → elem a (own_name name bs) ≡ false → elem a bs ≡ false
elem-own_name a none bs out = out
elem-own_name a (some b) bs out = ground (arith, out)

pub HasText-put :
    (blocks : Blocks) (a : ℕ) (v : Option Block) (name : Option ℕ) (t : Option String) (bs : List ℕ)
    → elem a (own_name name bs) ≡ false
    → HasText blocks name t
    → HasText (put blocks a v) name t
HasText-put blocks a v none none bs out has = tt
HasText-put blocks a v none (some t) bs out has = absurd has
HasText-put blocks a v (some b) none bs out has = absurd has
HasText-put blocks a v (some b) (some t) bs out has = ground (arith, out, has)

-- A write elsewhere leaves a list as it is.
pub Chain-put :
    (blocks : Blocks) (a : ℕ) (v : Option Block) (cs : List Cell) (last : Option ℕ)
    → elem a (chain_blocks cs) ≡ false
    → Chain blocks cs last
    → Chain (put blocks a v) cs last
Chain-put blocks a v [] last out chain = tt
Chain-put blocks a v (c ∷ cs) last out (node, (task, text), chain) =
    let rest = elem-own_name a c.name (c.at ∷ c.node ∷ chain_blocks cs) out in
    (
      ground (arith, rest, node),
      (
        ground (arith, rest, task),
        HasText-put blocks a v c.name c.task.name (c.at ∷ c.node ∷ chain_blocks cs) out text,
      ),
      Chain-put blocks a v cs last (ground (arith, rest)) chain,
    )

pub elem-++ : (a : ℕ) (bs cs : List ℕ) → elem a (bs ++ cs) ≡ elem a bs || elem a cs
elem-++ a [] cs = refl
elem-++ a (b ∷ bs) cs = ground (arith, elem-++ a bs cs)
