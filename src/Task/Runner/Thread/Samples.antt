-- ===== src/Task/Runner/Thread/Samples.antt =====
-- blueprint/task.c: a child that is interrupted, and one that exits.
use pyoneer.Prelude.{◌≡◌, ◌≢◌, refl, none, some, true}
use pyoneer.Prelude.Int.{pos}
use pyoneer.Pthread.{over}
use pyoneer.Task.{Task, running}
use pyoneer.Task.Runner.{TaskRunner, exited, signaled, Child}
use pyoneer.Task.Runner.Thread.{
  Held, Stopped, by_handler, task_runner_wait, task_runner_destroy, run_and_release, holding,
  release_once,
}

abbrev child : Child
child = record { spawn_code = pos 0; status = exited 0 }

abbrev runner : TaskRunner
runner = record {
  task = record { name = some "a.py"; status = running };
  info = record { exit_code = 256; signo = 64 };
}

abbrev interrupted : Stopped
interrupted = by_handler child (signaled 2)

release_once_example :
    ((task : Task) × (task_runner_destroy interrupted (some (holding runner)) ≡ some (some task))
      × (task.status ≢ running))
    × (task_runner_destroy interrupted (some (record { runner = runner; thread = over }))
        ≡ some (some runner.task))
    × ((h' : Held) × (task_runner_wait child (holding runner) ≡ some h')
        × (task_runner_destroy interrupted (some h') ≡ none))
    × ((task : Task) → run_and_release task true true true child interrupted ≡ none)
release_once_example = release_once runner interrupted child (refl, cc)
