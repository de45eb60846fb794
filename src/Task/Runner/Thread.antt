-- ===== src/Task/Runner/Thread.antt =====
-- blueprint/task.c: the operations on a task runner, with the thread that it holds.
mod Samples
use pyoneer.Prelude.{◌≡◌, ◌≢◌, refl, Option, none, some, Bool, true, false, ◌⊎◌, inl, inr, arith}
use pyoneer.Prelude.Int.{pos}
use pyoneer.Pthread.{
  Thread, alive, over, joined, pthread_join, ◌>>=◌, cancel_and_join, create_again,
}
use pyoneer.Task.{Task, Status, not_ready, ready, running, completed, incomplete}
use pyoneer.Task.Runner.{
  TaskRunner, WaitStatus, exited, signaled, neither, Child, task_runner_spawn, task_runner_thread,
  task_runner_handler, task_run, update_status,
}

-- A runner that `task_run` gave.
pub record Held : Type 0 where
  pub runner : TaskRunner
  pub thread : Thread

-- How a thread that is cancelled goes: it ends by itself before it acts on the request, or its handler
-- ends the child, whose status is given.
pub data Stopped : Type 0 where
  by_itself : Child → Stopped
  by_handler : Child → WaitStatus → Stopped

-- A thread that is alive still does this to the task.
abbrev pub to_end : Thread → Child → TaskRunner → TaskRunner
to_end alive child r = task_runner_thread r child
to_end t child r = r

abbrev pub stopped : Thread → Stopped → TaskRunner → TaskRunner
stopped alive (by_itself child) r = task_runner_thread r child
stopped alive (by_handler child status) r = task_runner_handler (task_runner_spawn r child) status
stopped t s r = r

unfoldable pub task_runner_wait : Child → Held → Option Held
unfolding pthread_join
task_runner_wait child h = do
  t ← pthread_join h.thread
  some (record { runner = to_end h.thread child h.runner; thread = t })

unfoldable pub task_runner_stop : Stopped → Held → Option Held
unfolding cancel_and_join
task_runner_stop s h = do
  t ← cancel_and_join h.thread
  some (record { runner = stopped h.thread s h.runner; thread = t })

-- The status and the recorded end of the task stay as the old thread left them.
unfoldable pub task_runner_restart : Stopped → Bool → Held → Option Held
unfolding task_runner_stop create_again
task_runner_restart s created h = do
  h' ← task_runner_stop s h
  some (record h' { thread = create_again created h'.thread })

-- The task is left; a NULL runner has none.
unfoldable pub task_runner_destroy : Stopped → Option Held → Option (Option Task)
unfolding task_runner_stop
task_runner_destroy s none = some none
task_runner_destroy s (some h) = do h' ← task_runner_stop s h; some (some h'.runner.task)

-- What `job_thread_sequential` does with a task that it runs: start, wait, and the handler of the
-- cleanup, which destroys the runner.
unfoldable pub run_and_release : Task → Bool → Bool → Bool → Child → Stopped → Option (Option Task)
unfolding task_runner_wait task_runner_destroy
run_and_release task site allocated created child s = elim (task_run task site allocated created) [
  | none ↦ some none
  | some r ↦ do
    h ← task_runner_wait child (record { runner = r; thread = alive })
    task_runner_destroy s (some h)
]

-- The child was started, and what `waitpid` said of it is an end.
abbrev pub Ended : Stopped → Type 0
Ended (by_itself child) = (child.spawn_code ≡ pos 0) × (child.status ≢ neither)
Ended (by_handler child status) = (child.spawn_code ≡ pos 0) × (status ≢ neither)

Ended-not_running :
    (r : TaskRunner) (s : Stopped) → Ended s → (stopped alive s r).task.status ≢ running
unfolding task_runner_thread task_runner_handler update_status
Ended-not_running r (by_itself child) (spawned, ended) = ground (arith, spawned, ended)
Ended-not_running r (by_handler child status) (spawned, ended) = ground (arith, ended)

destroy-alive :
    (r : TaskRunner) (s : Stopped)
    → task_runner_destroy s (some (record { runner = r; thread = alive }))
      ≡ some (some (stopped alive s r).task)
unfolding task_runner_destroy
destroy-alive r s = refl

destroy-over :
    (r : TaskRunner) (s : Stopped)
    → task_runner_destroy s (some (record { runner = r; thread = over })) ≡ some (some r.task)
unfolding task_runner_destroy
destroy-over r s = refl

wait-alive :
    (r : TaskRunner) (child : Child)
    → task_runner_wait child (record { runner = r; thread = alive })
      ≡ some (record { runner = task_runner_thread r child; thread = joined })
unfolding task_runner_wait
wait-alive r child = refl

destroy-joined :
    (r : TaskRunner) (s : Stopped)
    → task_runner_destroy s (some (record { runner = r; thread = joined })) ≡ none
unfolding task_runner_destroy
destroy-joined r s = refl

run_and_release-joined :
    (task : Task) (child : Child) (s : Stopped) → run_and_release task true true true child s ≡ none
unfolding run_and_release task_run
run_and_release-joined task child s = refl

-- A runner whose thread has not been joined.
abbrev pub holding : TaskRunner → Held
holding r = record { runner = r; thread = alive }

-- A runner whose thread still runs can be destroyed: the task is then not running any more, if its
-- child was started and ended. One whose thread is over, and not joined, can be destroyed as well, which leaves the task as it was: a
-- task whose end was lost to the mark of `task_run` stays running. But a runner that has been waited for cannot be destroyed: its thread is joined a
-- second time, which is undefined behaviour; a sequential job does just this with every task that it starts.
pub release_once :
    (r : TaskRunner) (s : Stopped) (child : Child)
    → Ended s
    → ((task : Task) × (task_runner_destroy s (some (holding r)) ≡ some (some task))
        × (task.status ≢ running))
      × (task_runner_destroy s (some (record { runner = r; thread = over })) ≡ some (some r.task))
      × ((h' : Held) × (task_runner_wait child (holding r) ≡ some h')
          × (task_runner_destroy s (some h') ≡ none))
      × ((task : Task) → run_and_release task true true true child s ≡ none)
release_once r s child ended = (
  ((stopped alive s r).task, destroy-alive r s, Ended-not_running r s ended),
  destroy-over r s,
  (
    record { runner = task_runner_thread r child; thread = joined },
    wait-alive r child,
    destroy-joined (task_runner_thread r child) s,
  ),
  λ task. run_and_release-joined task child s,
)
