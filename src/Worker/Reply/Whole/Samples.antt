-- ===== src/Worker/Reply/Whole/Samples.antt =====
-- pyoneer/worker.c: a worker that reports.
use pyoneer.Prelude.{◌≡◌, refl, some, [], arith}
use pyoneer.Json.Builder.{one_block_api}
use pyoneer.Job.{job_get_status}
use pyoneer.Job.Samples.{mixed_job}
use pyoneer.Worker.{Worker}
use pyoneer.Worker.Safety.Samples.{answers, holder}
use pyoneer.Worker.Reply.Whole.{worker_report, get_status_reports}
use pyoneer.Pyoneer.{of_worker, pyoneer_worker_get_status}

get_status_reports_example :
    (w' : Worker) × (pyoneer_worker_get_status one_block_api answers
        (of_worker (some (holder 1)))
        []
      ≡ some (
        (
          some (worker_report (holder 1) mixed_job (job_get_status mixed_job).1),
          of_worker (some w'),
        ),
        [],
      ))
get_status_reports_example =
    get_status_reports one_block_api answers (holder 1) 1 mixed_job refl refl refl (ground arith)
