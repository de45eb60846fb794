-- ===== src/Job/Heap.antt =====
-- blueprint/job.c and task.c: jobs and tasks as the blocks of memory that they are, with the links
-- between the nodes of a job's list, in the functions that allocate, link and free them. The other
-- modules of a job take the list of its tasks as a value.
pub mod Chain
pub mod Destroy
pub mod Owned
pub mod Append
pub mod Add
pub mod Run
pub mod Take
pub mod Create
pub mod Given
pub mod Decode
pub mod Release
pub mod Whole
use pyoneer.Prelude.{
  ℕ, ◌+◌, String, Bool, true, false, Option, none, some, [], ◌∷◌, zero, suc, ◌==◌, str_eq,
  if◌then◌else◌,
}
use pyoneer.Prelude.Int.{ℤ, to_int, le_zero}
use pyoneer.Memory.{Supply}
use pyoneer.Json.{
  Json, Items, nil, cons, Fields, object, array, integer, string, json_object_get_value,
}
use pyoneer.Task.{Status, ready}
use pyoneer.Job.{Job, JobStatus, JobOpts, job_opts_default, job_set_opts}
use pyoneer.Job.Codec.{decode_exec_mode, decode_run_mode}

-- `struct Job`: what stands in its block.
pub record Header : Type 0 where
  pub id : ℤ
  pub status : JobStatus
  pub size : ℕ
  pub opts : JobOpts
  pub head : Option ℕ
  pub tail : Option ℕ

-- What `malloc` gave: a `Job`, a `job_node` with its task and its link, a `Task`, or a text.
pub data Block : Type 0 where
  job_block : Header → Block
  node_block : ℕ → Option ℕ → Block
  task_block : Status → Option ℕ → Block
  text_block : String → Block

abbrev pub Blocks : Type 0
Blocks = ℕ → Option Block

abbrev pub put : Blocks → ℕ → Option Block → Blocks
put blocks a v b = if a == b then v else blocks b

-- The outcomes of the allocations to come; the blocks in use; and the addresses from which on none was
-- given out. An address is given out once, so that each use of a block that was freed is a fault.
pub record Heap : Type 0 where
  pub supply : Supply
  pub blocks : Blocks
  pub fresh : ℕ

-- `none` is undefined behaviour: a use of NULL, of a block that was freed, or of one of another type.
abbrev pub Action : Type 0 → Type 0
Action A = Heap → Option (A × Heap)

abbrev pub give : {A : Type 0} → A → Action A
give a h = some (a, h)

infixl 5 ◌>>=◌
abbrev pub ◌>>=◌ : {A B : Type 0} → Action A → (A → Action B) → Action B
◌>>=◌ m f h = elim (m h) [ none ↦ none | some (a, h') ↦ f a h' ]

-- The next outcome.
abbrev pub outcome : Supply → Bool × Supply
outcome [] = (true, [])
outcome (b ∷ s) = (b, s)

-- `malloc` of a block, which is filled at once.
unfoldable pub alloc : Block → Action (Option ℕ)
alloc block h =
    if (outcome h.supply).0
    then some (
      some h.fresh,
      record {
        supply = (outcome h.supply).1;
        blocks = put h.blocks h.fresh (some block);
        fresh = h.fresh + 1;
      },
    )
    else some (none, record h { supply = (outcome h.supply).1 })

abbrev pub load : ℕ → Action Block
load a h = elim (h.blocks a) [ none ↦ none | some block ↦ some (block, h) ]

abbrev pub store : ℕ → Block → Action Unit
store a block h = elim (h.blocks a) [
  | none ↦ none
  | some old ↦ some (tt, record h { blocks = put h.blocks a (some block) })
]

-- `free`, of a pointer that may be NULL.
abbrev pub free : Option ℕ → Action Unit
free none h = some (tt, h)
free (some a) h = elim (h.blocks a) [
  | none ↦ none
  | some old ↦ some (tt, record h { blocks = put h.blocks a none })
]

abbrev pub as_job : Block → Action Header
as_job (job_block header) h = some (header, h)
as_job block h = none

abbrev pub as_node : Block → Action (ℕ × Option ℕ)
as_node (node_block task next) h = some ((task, next), h)
as_node block h = none

abbrev pub as_task : Block → Action (Status × Option ℕ)
as_task (task_block status name) h = some ((status, name), h)
as_task block h = none

-- `task_create`: the name is copied by `strdup`, which is not tested.
unfoldable pub task_create_heap : String → Action (Option ℕ)
task_create_heap name = if str_eq name "" then give none else do
  task ← alloc (task_block ready none)
  elim task [
    | none ↦ give none
    | some a ↦ do
      copy ← alloc (text_block name)
      stored ← store a (task_block ready copy)
      give (some a)
  ]

unfoldable pub task_destroy_heap : ℕ → Action Unit
task_destroy_heap a = do block ← load a; task ← as_task block; name ← free task.1; free (some a)

unfoldable pub job_create_heap : ℤ → Action (Option ℕ)
unfolding job_opts_default
job_create_heap id =
    if le_zero id
    then give none
    else alloc (
        job_block (record {
          id = id;
          status = JobStatus.ready;
          size = 0;
          opts = job_opts_default;
          head = none;
          tail = none;
        }))

-- The loop of `job_destroy`, on fuel, with the `curr` of the code.
unfoldable pub destroy_nodes : ℕ → Option ℕ → Action Unit
unfolding task_destroy_heap
destroy_nodes fuel none = give tt
destroy_nodes zero (some p) = λ h. none
destroy_nodes (suc fuel) (some p) = do
  block ← load p
  node ← as_node block
  task ← task_destroy_heap node.0
  freed ← free (some p)
  destroy_nodes fuel node.1

unfoldable pub job_destroy_heap : ℕ → Action Unit
unfolding destroy_nodes
job_destroy_heap j = do
  block ← load j
  header ← as_job block
  nodes ← destroy_nodes header.size header.head
  free (some j)

-- Where the list is not empty, the new node is linked behind the one that `tail` points to.
unfoldable pub link_last : ℕ → Option ℕ → Action Unit
link_last n none = λ h. none
link_last n (some l) = do block ← load l; node ← as_node block; store l (node_block node.0 (some n))

-- The branches on the size of the job that is read, which is increased.
unfoldable pub link_node : ℕ → ℕ → Header → Bool → Action Bool
unfolding link_last
link_node j n header true = do
  stored ←
      store j (job_block (record header { size = header.size + 1; head = some n; tail = some n }))
  give true
link_node j n header false = do
  linked ← link_last n header.tail
  stored ← store j (job_block (record header { size = header.size + 1; tail = some n }))
  give true

-- `job_add_task` behind its `malloc`
unfoldable pub add_node : ℕ → Option ℕ → Action Bool
unfolding link_node
add_node j none = give false
add_node j (some n) = do
  block ← load j
  header ← as_job block
  link_node j n header (header.size == 0)

-- Returns whether it succeeds.
unfoldable pub job_add_task_heap : ℕ → ℕ → Action Bool
unfolding add_node
job_add_task_heap j task = do node ← alloc (node_block task none); add_node j node

abbrev pub decode_name_heap : Option Json → Action (Option ℕ)
decode_name_heap (some (string s)) = task_create_heap s
decode_name_heap v = give none

unfoldable pub task_decode_heap : Json → Action (Option ℕ)
unfolding json_object_get_value
task_decode_heap (object fs) =
    decode_name_heap (json_object_get_value (some (object fs)) (some "name"))
task_decode_heap v = give none

-- The loop of `job_decode`.
unfoldable pub decode_tasks_heap : Items → ℕ → Action (Option ℕ)
unfolding task_decode_heap job_add_task_heap task_destroy_heap job_destroy_heap
decode_tasks_heap nil j = give (some j)
decode_tasks_heap (cons v vs) j = do
  decoded ← task_decode_heap v
  elim decoded [
    | none ↦ (do destroyed ← job_destroy_heap j; give none)
    | some task ↦ do
      added ← job_add_task_heap j task
      elim added [
        | true ↦ decode_tasks_heap vs j
        | false ↦ do task_gone ← task_destroy_heap task; job_gone ← job_destroy_heap j; give none
      ]
  ]

-- The options that `job_set_opts` makes of those that it is given are those of its model on a job as a
-- value, here one without tasks.
unfoldable pub job_set_opts_heap : ℕ → Option JobOpts → Action Unit
unfolding job_set_opts
job_set_opts_heap j opts = do
  block ← load j
  header ← as_job block
  store j (
      job_block (record header {
        opts =
            (job_set_opts
              (record {
                id = header.id;
                status = header.status;
                size = header.size;
                opts = header.opts;
                tasks = [];
              })
              opts).opts;
      }))

-- `job_decode` behind the tests on the two required members.
unfoldable pub decode_members_heap : Fields → ℤ → Items → Action (Option ℕ)
unfolding job_create_heap decode_tasks_heap job_set_opts_heap job_opts_default
decode_members_heap fs id tasks = do
  created ← job_create_heap (to_int id)
  elim created [
    | none ↦ give none
    | some j ↦ do
      set ← job_set_opts_heap j (
          some (record job_opts_default {
            exec_mode =
                decode_exec_mode (json_object_get_value (some (object fs)) (some "execMode"))
                  job_opts_default.exec_mode;
            run_mode =
                decode_run_mode (json_object_get_value (some (object fs)) (some "runMode"))
                  job_opts_default.run_mode;
          }))
      decode_tasks_heap tasks j
  ]

unfoldable pub decode_required_heap : Fields → Option Json → Option Json → Action (Option ℕ)
unfolding decode_members_heap
decode_required_heap fs (some (integer id)) (some (array tasks)) = decode_members_heap fs id tasks
decode_required_heap fs id tasks = give none

unfoldable pub job_decode_heap : Option Json → Action (Option ℕ)
unfolding decode_required_heap json_object_get_value
job_decode_heap none = give none
job_decode_heap (some (object fs)) =
    decode_required_heap fs (json_object_get_value (some (object fs)) (some "id"))
      (json_object_get_value (some (object fs)) (some "tasks"))
job_decode_heap (some v) = give none
