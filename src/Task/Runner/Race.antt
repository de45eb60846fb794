-- ===== src/Task/Runner/Race.antt =====
-- blueprint/task.c: `task_run`, which marks its task as running once it has created the thread of the
-- runner, against that thread. The two share the task without a lock.
mod Samples
use pyoneer.Prelude.{
  ℕ, ◌≡◌, ◌≢◌, ◌⊎◌, inl, inr, refl, Bool, true, false, List, [], ◌∷◌, arith, ◌==◌, if◌then◌else◌,
}
use pyoneer.Prelude.Int.{pos, negsuc, ◌==ℤ◌}
use pyoneer.Task.{Task, Status, running, task_set_status}
use pyoneer.Task.Runner.{
  TaskRunner, WaitStatus, exited, signaled, neither, Child, update_status, task_runner_spawn,
  task_runner_thread,
}

-- Where the thread stands: before the spawn, in `waitpid`, or at its end.
pub data Phase : Type 0 where
  created waiting over : Phase

-- The runner, whether `task_run` has marked the task, and the thread.
pub record Race : Type 0 where
  pub runner : TaskRunner
  pub marked : Bool
  pub phase : Phase

-- The rest of `task_run`, and the next part of the thread.
pub data RaceTurn : Type 0 where
  mark advance : RaceTurn

-- The thread leaves at once where the code of the spawn compares equal to -1.
unfoldable pub thread_turn : Child → Race → Race
unfolding task_runner_spawn update_status
thread_turn child r = elim r.phase [
  | created ↦ record r {
    runner = task_runner_spawn r.runner child;
    phase = if child.spawn_code ==ℤ negsuc 0 then over else waiting;
  }
  | waiting ↦ record r { runner = update_status r.runner child.status; phase = over }
  | over ↦ r
]

unfoldable pub mark_turn : Race → Race
unfolding task_set_status
mark_turn r = if r.marked then r else record r {
  runner = record r.runner { task = task_set_status r.runner.task running };
  marked = true;
}

unfoldable pub race : Child → List RaceTurn → Race → Race
unfolding thread_turn mark_turn
race child [] r = r
race child (mark ∷ ts) r = race child ts (mark_turn r)
race child (advance ∷ ts) r = race child ts (thread_turn child r)

-- After `pthread_create`.
abbrev pub start : TaskRunner → Race
start runner = record { runner = runner; marked = false; phase = created }

-- What the thread alone makes of the task.
abbrev pub result : TaskRunner → Child → Status
result runner child = (task_runner_thread runner child).task.status

-- Once the thread is over, the task has the result of the child, or it is running.
abbrev IsResult : Child → Status → Race → Type 0
IsResult child res r =
    (r.phase ≡ over → (r.runner.task.status ≡ res) ⊎ (r.runner.task.status ≡ running))

result-any :
    (runner runner' : TaskRunner) (child : Child)
    → child.spawn_code ≡ pos 0
    → child.status ≢ neither
    → (update_status runner' child.status).task.status ≡ result runner child
unfolding update_status task_runner_thread
result-any runner runner' child spawned ended = ground arith

thread_turn-IsResult :
    (child : Child) (runner : TaskRunner) (r : Race)
    → child.spawn_code ≡ pos 0
    → child.status ≢ neither
    → IsResult child (result runner child) r
    → IsResult child (result runner child) (thread_turn child r)
unfolding thread_turn
thread_turn-IsResult child runner r spawned ended h =
    ground (arith, result-any runner r.runner child spawned ended)

mark_turn-IsResult :
    (child : Child) (res : Status) (r : Race)
    → IsResult child res r
    → IsResult child res (mark_turn r)
unfolding mark_turn
mark_turn-IsResult child res r h = ground arith

race-IsResult :
    (child : Child) (runner : TaskRunner) (ts : List RaceTurn) (r : Race)
    → child.spawn_code ≡ pos 0
    → child.status ≢ neither
    → IsResult child (result runner child) r
    → IsResult child (result runner child) (race child ts r)
unfolding race
race-IsResult child runner [] r spawned ended h = h
race-IsResult child runner (mark ∷ ts) r spawned ended h =
    race-IsResult child runner ts (mark_turn r) spawned ended
      (mark_turn-IsResult child (result runner child) r h)
race-IsResult child runner (advance ∷ ts) r spawned ended h =
    race-IsResult child runner ts (thread_turn child r) spawned ended
      (thread_turn-IsResult child runner r spawned ended h)

-- Whatever turns `task_run` and the thread of a child that starts and ends take, once the thread is
-- over the task has the status that the end of the child gives, or it is still running.
pub race-result :
    (child : Child) (runner : TaskRunner) (ts : List RaceTurn)
    → child.spawn_code ≡ pos 0
    → child.status ≢ neither
    → (race child ts (start runner)).phase ≡ over
    → ((race child ts (start runner)).runner.task.status ≡ result runner child)
      ⊎ ((race child ts (start runner)).runner.task.status ≡ running)
race-result child runner ts spawned ended =
    race-IsResult child runner ts (start runner) spawned ended (λ e. ground arith)

-- The three orders in which `task_run` and the thread of a child that starts and ends can go: if the
-- task is marked before the child's end is recorded, it has the status that the end gives; if it is
-- marked afterwards, that status is lost, and the task is left running though its thread is over.
pub race_orders :
    (child : Child) (runner : TaskRunner)
    → child.spawn_code ≡ pos 0
    → child.status ≢ neither
    → ((race child (mark ∷ advance ∷ advance ∷ []) (start runner)).runner.task.status
        ≡ result runner child)
      × ((race child (advance ∷ mark ∷ advance ∷ []) (start runner)).runner.task.status
          ≡ result runner child)
      × ((race child (advance ∷ advance ∷ mark ∷ []) (start runner)).runner.task.status ≡ running)
      × ((race child (advance ∷ advance ∷ mark ∷ []) (start runner)).phase ≡ over)
unfolding race thread_turn mark_turn task_runner_spawn task_runner_thread update_status
race_orders child runner spawned ended = (ground arith, ground arith, ground arith, ground arith)
