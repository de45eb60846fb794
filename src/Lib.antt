-- ===== src/Lib.antt =====
-- Pyoneer is a server that runs jobs: lists of tasks, each a program that a child process runs. A
-- client connects, sends one JSON request with a command and a token, and gets one JSON reply. This
-- library models the C program under src/ of the repository.
--
-- How the parts work together. A listener accepts a connection and submits it to the thread pool;
-- a worker thread of the pool takes it and calls the client handler. The handler checks the request
-- and calls the pyoneer, which passes a command on to the worker. The worker owns a job and an
-- engine; the engine owns the runner of a job, whose thread runs the tasks of the job, each through a
-- task runner with a thread and a child of its own. Worker, runner and threads share the job.
--
-- Which file models what, with the functions of the same names unless it says otherwise:
--   Json, Json/Push, Json/Compare   src/shared/json-helpers.c. The values of the JSON library are a
--       data type, its constructors and pushes the record JsonApi (Json/Builder) with their laws; whether a push of
--       NULL comes to the value is left open.
--   Task, Task/Runner   src/blueprint/task.c. A runner is a record with its task; how the child goes is
--       an input. Task/Runner/Race has the turns of the thread and of its creator, Task/Runner/Thread
--       the stop, the wait and the destruction; Pthread the calls on threads that they make.
--   Job and its children   src/blueprint/job.c: the job, its invariant (Job/Invariant), its status
--       (Job/Status), its JSON forms (Job/Codec), and the threads that run it (Job/Runner),
--       and, in Job/Heap, the blocks and links of its list from job_decode to job_destroy.
--   Engine   src/pyoneer/engine.c, with job_run and the stop, restart and destruction of a job runner.
--       Jobs stand in a store, a function from addresses; an address without a job was freed. All threads
--       that were started are kept, with the job that each runs on, also those that no runner holds.
--       Engine/Threads has the thread of the runner alone, and the engine that could not be allocated.
--   Worker   src/pyoneer/worker.c. run_locked and assign_locked are what worker_run and worker_assign do
--       under the lock; Worker/Commands has the commands with their replies,
--       and Worker/Reply what they report. Worker/Watch, Safety, Busy and Sound say who owns which job.
--   Pyoneer   src/pyoneer/pyoneer.c and src/blueprint/blueprint.c.
--   Client   src/api/client.c: client_handle_fd, in the steps of its one loop; the model of that name leaves
--       out what Client/Connection and Client/Peer add, the counters, the log and the peer.
--   Server   src/api/server.c: the creation of the server with its listeners, and its destruction;
--       Server/Accept has server_run and server_stop, with the turns of the other threads as inputs.
--   Site, Logger   src/shared/site.c and src/api/logger.c.
--   Options   src/main.c: parse_flags and the defaults; Options/Text has strtol.
--   Main   src/main.c: main, a stage for each part that it creates, policy_init and the cleanup. Here
--       server_run is only how it ends and which descriptors it accepts; Main/Connections has their close.
--   Pool   src/api/thread_pool.c. What a thread does under the mutex is one step; Pool/Turns has the
--       turns of all threads, Pool/Threads runs of them, Pool/Destroy the destruction, and Pool/Abstract
--       the queue that the rings stand for.
--   Memory   the effects that C functions have: an allocation that fails (the outcomes of those to come
--       are a list, an input), and the fault of a null dereference (`none` of a Run).
--   Prelude   numbers, tests and lists that all of them share.
--
-- Inputs. The JSON library, the system calls and the scheduler are parameters: the outcomes of
-- allocations, of posix_spawn, waitpid, pthread_create and the locks, the text that recv gives, the
-- addresses that malloc gives, and the order of the threads' turns. Numbers are naturals; sizes of the
-- queue and counters stay far below their widths. The int that a JSON id is converted to wraps around.
--
-- Undefined behaviour. A fault ends a Run with `none`. In Engine and Server a flag is set instead: what
-- the model does behind it means nothing. In Job/Runner the second join of a task's thread, which
-- Task/Runner/Thread shows to be undefined, is taken to do nothing.
--
-- Fuel. The loop of a job's thread (Job/Runner) runs on a number of rounds, one for a job that runs
-- once. Job/Runner/Loop is about the number that a repeating job needs.
--
-- Not modelled: src/shared/json.c and json-builder.c, which are copies of another project; what main
-- prints to stderr; crew.c, manager.h and project.h, which only declare. The tests, the tasks and the command line
-- client under cli/ are outside the program.
pub mod Prelude
pub mod Memory
pub mod Pthread
pub mod Json
pub mod Task
pub mod Job
pub mod Engine
pub mod Worker
pub mod Pyoneer
pub mod Pool
pub mod Client
pub mod Server
pub mod Site
pub mod Logger
pub mod Options
pub mod Main
