-- ===== src/Task/Runner.antt =====
-- blueprint/task.c: the runner of a task. A child process is seen through what `posix_spawn` returns
-- and the status that `waitpid` stores; both are inputs of the model.
pub mod Race
pub mod Thread
use pyoneer.Prelude.{ℕ, String, Option, none, some, Bool, ◌==◌, ◌++◌, if◌then◌else◌}
use pyoneer.Prelude.Int.{ℤ, negsuc, ◌==ℤ◌}
use pyoneer.Task.{Task, Status, not_ready, ready, running, completed, incomplete, task_set_status}

-- The macros on a wait status: `WIFEXITED` with its code, `WIFSIGNALED` with its signal, or neither.
pub data WaitStatus : Type 0 where
  exited : ℕ → WaitStatus
  signaled : ℕ → WaitStatus
  neither : WaitStatus

-- `EXIT_SENTINAL` and `SIGSENT`: nothing recorded yet.
abbrev pub exit_sentinal : ℕ
exit_sentinal = 256

abbrev pub sigsent : ℕ
sigsent = 64

abbrev pub sigint : ℕ
sigint = 2

-- `task_runner_info_t`
pub record TaskRunnerInfo : Type 0 where
  pub exit_code : ℕ
  pub signo : ℕ

-- A runner with the task that it points to.
pub record TaskRunner : Type 0 where
  pub task : Task
  pub info : TaskRunnerInfo

unfoldable pub update_status : TaskRunner → WaitStatus → TaskRunner
unfolding task_set_status
update_status r (exited code) = record {
  task = task_set_status r.task (if code == 0 then completed else not_ready);
  info = record r.info { exit_code = code };
}
update_status r (signaled signo) = record {
  task = task_set_status r.task (if signo == sigint then incomplete else ready);
  info = record r.info { signo = signo };
}
update_status r neither = r

-- How the child goes: the code that `posix_spawn` returns, and the status of the child.
pub record Child : Type 0 where
  pub spawn_code : ℤ
  pub status : WaitStatus

-- `task_runner_thread` up to the `waitpid`, and what follows it. The thread ends without waiting
-- where the code compares equal to -1.
unfoldable pub task_runner_spawn : TaskRunner → Child → TaskRunner
unfolding task_set_status
task_runner_spawn r child =
    if child.spawn_code ==ℤ negsuc 0 then r else record r { task = task_set_status r.task running }

unfoldable pub task_runner_thread : TaskRunner → Child → TaskRunner
unfolding task_runner_spawn update_status
task_runner_thread r child =
    if child.spawn_code ==ℤ negsuc 0
    then r
    else update_status (task_runner_spawn r child) child.status

-- The handler of a cancelled thread sends SIGINT and waits in its place.
unfoldable pub task_runner_handler : TaskRunner → WaitStatus → TaskRunner
unfolding update_status
task_runner_handler r status = update_status r status

-- `task_run` where the site is there, `malloc` gives the runner, and `pthread_create` succeeds; each
-- of the three failures returns NULL and leaves the task as it was.
unfoldable pub task_run : Task → Bool → Bool → Bool → Option TaskRunner
unfolding task_set_status
task_run task site allocated created =
    if site
    then (if allocated
        then (if created
            then some (record {
              task = task_set_status task running;
              info = record { exit_code = exit_sentinal; signo = sigsent };
            })
            else none)
        else none)
    else none

unfoldable pub task_runner_get_info : TaskRunner → TaskRunnerInfo
task_runner_get_info r = r.info
