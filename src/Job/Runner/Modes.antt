-- ===== src/Job/Runner/Modes.antt =====
-- blueprint/job.c: the two execution modes of a round, side by side.
use pyoneer.Prelude.{ℕ, ◌+◌, ◌≤◌, ◌≡◌, refl, ap, ◌⊎◌, inl, inr, Bool, List, [], ◌∷◌, arith, length}
use pyoneer.Task
use pyoneer.Task.{Task, Status, task_get_status, task_set_status}
use pyoneer.Task.Runner.{Child}
use pyoneer.Job.Runner.{
  Launch, refused, launched, overtaken, run_to_end, sequential_round, idle_nodes, start_tasks,
  wait_nodes, task_count, parallel_round,
}

wait_nodes-idle_nodes : (tasks : List Task) → wait_nodes (idle_nodes tasks) ≡ tasks
unfolding wait_nodes
wait_nodes-idle_nodes [] = refl
wait_nodes-idle_nodes (task ∷ tasks) = ap (λ ts. task ∷ ts) (wait_nodes-idle_nodes tasks)

-- `task_run` makes the task running, whatever it was.
run_to_end-set_status :
    (task : Task) (s : Status) (child : Child)
    → run_to_end (task_set_status task s) child ≡ run_to_end task child
unfolding run_to_end task_set_status
run_to_end-set_status task s child = refl

Launch-cases :
    (l : Launch)
    → (l ≡ refused)
      ⊎ (((child : Child) × (l ≡ launched child)) ⊎ ((child : Child) × (l ≡ overtaken child)))
Launch-cases refused = inl refl
Launch-cases (launched child) = inr (inl (child, refl))
Launch-cases (overtaken child) = inr (inr (child, refl))

-- For every environment and every list of tasks, a parallel round leaves each task with the status
-- that a sequential round leaves it with, and ends with the same `completion` and `repeat`.
pub parallel_round-eq-sequential_round :
    (env : ℕ → Launch) (i : ℕ) (repeat : Bool) (tasks : List Task)
    → parallel_round env i repeat tasks ≡ sequential_round env i repeat tasks
unfolding parallel_round sequential_round
parallel_round-eq-sequential_round env i repeat [] = refl
parallel_round-eq-sequential_round env i repeat (task ∷ tasks) = elim (Launch-cases (env i)) [
  | inl e ↦ ground (
    arith,
    e,
    wait_nodes-idle_nodes tasks,
    parallel_round-eq-sequential_round env (i + 1) repeat tasks,
  )
  | inr (inr (child, e)) ↦ ground (
    arith,
    e,
    wait_nodes-idle_nodes tasks,
    parallel_round-eq-sequential_round env (i + 1) repeat tasks,
  )
  | inr (inl (child, e)) ↦ ground (
    arith,
    e,
    wait_nodes-idle_nodes tasks,
    parallel_round-eq-sequential_round env (i + 1) repeat tasks,
    run_to_end-set_status task Task.running child,
  )
]

count-idle_nodes : (tasks : List Task) → task_count (idle_nodes tasks) ≡ 0
unfolding task_count
count-idle_nodes [] = refl
count-idle_nodes (task ∷ tasks) = count-idle_nodes tasks

-- The runners that a parallel round stores never outnumber the tasks, for which `job_run` made room.
pub task_count-le_length :
    (env : ℕ → Launch) (i : ℕ) (repeat : Bool) (tasks : List Task)
    → task_count (start_tasks env i repeat tasks).nodes ≤ length tasks
unfolding start_tasks task_count
task_count-le_length env i repeat [] = omega arith
task_count-le_length env i repeat (task ∷ tasks) =
    ground (arith, task_count-le_length env (i + 1) repeat tasks, count-idle_nodes tasks)
