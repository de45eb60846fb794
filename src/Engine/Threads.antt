-- ===== src/Engine/Threads.antt =====
-- blueprint/job.c and pyoneer/engine.c: the thread of the job runner that the engine holds, through the
-- operations of the engine. What these do to jobs is in Engine.
mod Stopped
use pyoneer.Prelude.{Option, none, some, Bool, true, false, if◌then◌else◌}
use pyoneer.Pthread.{
  Thread, alive, over, joined, pthread_join, ◌>>=◌, cancel_and_join, create_again,
}

-- `engine->job_runner`: NULL, or a runner with its thread.
abbrev pub EngineThread : Type 0
EngineThread = Option Thread

-- An `Engine *`, which is NULL where `engine_create` could not allocate.
abbrev pub EnginePointer : Type 0
EnginePointer = Option EngineThread

unfoldable pub engine_create_thread : Bool → EnginePointer
engine_create_thread allocated = if allocated then some none else none

-- `job_runner_stop`, which `job_runner_destroy` calls before it frees
unfoldable pub job_runner_stop_thread : Thread → Option Thread
unfolding cancel_and_join
job_runner_stop_thread = cancel_and_join

-- `job_runner_wait`
unfoldable pub job_runner_wait_thread : Thread → Option Thread
unfolding pthread_join
job_runner_wait_thread = pthread_join

-- `job_runner_restart`: `created` says whether `job_thread_create` succeeds.
unfoldable pub job_runner_restart_thread : Bool → Thread → Option Thread
unfolding cancel_and_join create_again
job_runner_restart_thread created t = do t' ← cancel_and_join t; some (create_again created t')

-- The pointer is followed without a test; a NULL runner is tested for.
abbrev on_runner : (Thread → Option Thread) → EnginePointer → Option EnginePointer
on_runner act none = none
on_runner act (some none) = some (some none)
on_runner act (some (some t)) = do t' ← act t; some (some (some t'))

unfoldable pub stop_thread : EnginePointer → Option EnginePointer
unfolding job_runner_stop_thread
stop_thread e = on_runner job_runner_stop_thread e

unfoldable pub wait_thread : EnginePointer → Option EnginePointer
unfolding job_runner_wait_thread
wait_thread e = on_runner job_runner_wait_thread e

unfoldable pub restart_thread : Bool → EnginePointer → Option EnginePointer
unfolding job_runner_restart_thread
restart_thread created e = on_runner (job_runner_restart_thread created) e

-- `engine_run`: `launched` says whether `job_run` gives a runner. The old runner is destroyed, which
-- stops its thread if it is not NULL.
unfoldable pub run_thread : Bool → EnginePointer → Option EnginePointer
unfolding stop_thread
run_thread false e = some e
run_thread true e = do old ← stop_thread e; some (some (some alive))

-- `engine_destroy`, which tests the pointer
unfoldable pub destroy_thread : EnginePointer → Option Bool
unfolding stop_thread
destroy_thread none = some true
destroy_thread (some e) = do old ← stop_thread (some e); some true
