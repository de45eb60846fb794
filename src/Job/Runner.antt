-- ===== src/Job/Runner.antt =====
-- blueprint/job.c: the thread that runs the tasks of a job, one after the other or together. The
-- environment says, for each round and each position in the list, whether `task_run` gives a
-- runner, how its child ends, and whether the thread of the runner is over before `task_run` marks
-- the task as running, the order of `Task.Runner.Race` that loses the result. That the cleanup handler cancels and
-- joins the thread a second time is undefined behaviour, which `Task.Runner.Thread` shows; here it is taken
-- to do nothing.
pub mod Rounds
pub mod Modes
pub mod Loop
use pyoneer.Prelude.{
  ℕ, zero, suc, ◌+◌, Bool, true, false, ◌&&◌, ◌||◌, Option, none, some, List, [], ◌∷◌, ◌==◌,
  if◌then◌else◌,
}
use pyoneer.Task
use pyoneer.Task.{Task, Status, task_get_status, task_set_status}
use pyoneer.Task.Runner.{Child, TaskRunner, task_run, task_runner_thread}
use pyoneer.Job.{Job, JobStatus, JobRunnerInfo, ExecMode, RunMode, job_get_status, reset_status}

-- `task_run` returns NULL, or a runner whose child ends like this: the end is recorded after the
-- task was marked as running, or overtakes the mark.
pub data Launch : Type 0 where
  refused : Launch
  launched : Child → Launch
  overtaken : Child → Launch

abbrev pub is_pending : Status → Bool
is_pending Task.ready = true
is_pending Task.incomplete = true
is_pending _ = false

-- "Inconsistent state"
abbrev pub is_inconsistent : Status → Bool
is_inconsistent Task.not_ready = true
is_inconsistent Task.running = true
is_inconsistent _ = false

-- The task once its runner has been waited for.
unfoldable pub run_to_end : Task → Child → Task
unfolding task_run task_runner_thread
run_to_end task child = elim (task_run task true true true) [
  | none ↦ task
  | some r ↦ (task_runner_thread r child).task
]

-- The same where the mark comes last.
unfoldable pub run_overtaken : Task → Child → Task
unfolding task_run task_runner_thread task_set_status
run_overtaken task child = elim (task_run task true true true) [
  | none ↦ task
  | some r ↦ task_set_status (task_runner_thread (record r { task = task }) child).task Task.running
]

-- What a round leaves: the tasks, `completion`, and `repeat`.
pub record Round : Type 0 where
  pub tasks : List Task
  pub completion : Bool
  pub repeat : Bool

-- The body of the loop over the tasks in `job_thread_sequential`.
unfoldable pub sequential_round : (ℕ → Launch) → ℕ → Bool → List Task → Round
sequential_round env i repeat [] = record { tasks = []; completion = true; repeat = repeat }
sequential_round env i repeat (task ∷ tasks) =
    let rest = sequential_round env (i + 1) repeat tasks in
    let stop : Round = record { tasks = task ∷ tasks; completion = false; repeat = false } in
    if is_pending (task_get_status task)
    then elim (env i) [
      | refused ↦ stop
      | launched child ↦ record rest { tasks = run_to_end task child ∷ rest.tasks }
      | overtaken child ↦ record rest { tasks = run_overtaken task child ∷ rest.tasks }
    ]
    else if is_inconsistent (task_get_status task)
    then stop
    else record rest { tasks = task ∷ rest.tasks }

-- A task of the list in `job_thread_parallel` has no runner, or one whose thread still has its work
-- to do, or one whose thread is over.
pub data NodeRunner : Type 0 where
  no_runner : NodeRunner
  at_work : Child → NodeRunner
  thread_over : NodeRunner

pub record Node : Type 0 where
  pub task : Task
  pub runner : NodeRunner

pub record Started : Type 0 where
  pub nodes : List Node
  pub completion : Bool
  pub repeat : Bool

abbrev pub idle_nodes : List Task → List Node
idle_nodes [] = []
idle_nodes (task ∷ tasks) = record { task = task; runner = no_runner } ∷ idle_nodes tasks

-- "Run Tasks": a task that gets a runner is running when `task_run` returns.
unfoldable pub start_tasks : (ℕ → Launch) → ℕ → Bool → List Task → Started
start_tasks env i repeat [] = record { nodes = []; completion = true; repeat = repeat }
start_tasks env i repeat (task ∷ tasks) =
    let rest = start_tasks env (i + 1) repeat tasks in
    let stop : Started = record {
      nodes = idle_nodes (task ∷ tasks);
      completion = false;
      repeat = false;
    } in
    if is_pending (task_get_status task)
    then elim (env i) [
      | refused ↦ stop
      | launched child ↦ record rest {
        nodes =
            record { task = task_set_status task Task.running; runner = at_work child }
            ∷ rest.nodes;
      }
      | overtaken child ↦ record rest {
        nodes = record { task = run_overtaken task child; runner = thread_over } ∷ rest.nodes;
      }
    ]
    else if is_inconsistent (task_get_status task)
    then stop
    else record rest { nodes = record { task = task; runner = no_runner } ∷ rest.nodes }

-- "Wait for tasks": each runner's thread has done its work.
unfoldable pub wait_nodes : List Node → List Task
wait_nodes [] = []
wait_nodes (node ∷ nodes) =
    elim node.runner [
      | no_runner ↦ node.task
      | at_work child ↦ run_to_end node.task child
      | thread_over ↦ node.task
    ]
    ∷ wait_nodes nodes

-- `runner->task_count` after the start of the tasks
unfoldable pub task_count : List Node → ℕ
task_count [] = 0
task_count (node ∷ nodes) =
    let rest = task_count nodes in
    elim node.runner [ no_runner ↦ rest | at_work child ↦ rest + 1 | thread_over ↦ rest + 1 ]

unfoldable pub parallel_round : (ℕ → Launch) → ℕ → Bool → List Task → Round
unfolding start_tasks wait_nodes
parallel_round env i repeat tasks =
    let started = start_tasks env i repeat tasks in
    record {
      tasks = wait_nodes started.nodes;
      completion = started.completion;
      repeat = started.repeat;
    }

-- A job and the counters of its runner.
pub record JobRun : Type 0 where
  pub job : Job
  pub info : JobRunnerInfo

abbrev pub is_completed : JobStatus → Bool
is_completed JobStatus.completed = true
is_completed _ = false

-- "Update info" and what follows it. The status is read only after a completion.
unfoldable pub finish_round : Round → JobRun → JobRun
unfolding job_get_status reset_status
finish_round round r =
    let job = record r.job { tasks = round.tasks } in
    let read = job_get_status job in
    if round.completion
    then record {
      job = if round.repeat then reset_status read.0 else read.0;
      info = record r.info {
        attempts = r.info.attempts + 1;
        completions = r.info.completions + 1;
        successes = if is_completed read.1 then r.info.successes + 1 else r.info.successes;
      };
    }
    else record { job = job; info = record r.info { attempts = r.info.attempts + 1 } }

abbrev pub is_repeat : RunMode → Bool
is_repeat RunMode.repeat = true
is_repeat _ = false

-- The `do` loop, over a way to run a round. The fuel bounds the rounds; `none` is a loop that has not
-- ended within it.
module _ (round : (ℕ → Launch) → ℕ → Bool → List Task → Round) where
  unfoldable pub job_loop : ℕ → (ℕ → ℕ → Launch) → ℕ → JobRun → Option JobRun
  job_loop zero envs n r = none
  job_loop (suc fuel) envs n r =
      let result = round (envs n) 0 (is_repeat r.job.opts.run_mode) r.job.tasks in
      let r' = finish_round result r in
      let rest = job_loop fuel envs (n + 1) r' in if result.repeat then rest else some r'

unfoldable pub job_thread_sequential : ℕ → (ℕ → ℕ → Launch) → JobRun → Option JobRun
job_thread_sequential fuel envs r = job_loop sequential_round fuel envs 0 r

unfoldable pub job_thread_parallel : ℕ → (ℕ → ℕ → Launch) → JobRun → Option JobRun
job_thread_parallel fuel envs r = job_loop parallel_round fuel envs 0 r

-- The thread that `job_thread_create` picks; it refuses a mode that is neither of the two.
unfoldable pub job_thread : ExecMode → ℕ → (ℕ → ℕ → Launch) → JobRun → Option JobRun
unfolding job_thread_sequential job_thread_parallel
job_thread ExecMode.parallel fuel envs r = job_thread_parallel fuel envs r
job_thread ExecMode.sequential fuel envs r = job_thread_sequential fuel envs r
job_thread ExecMode.other fuel envs r = none
