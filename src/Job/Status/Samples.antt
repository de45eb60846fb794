-- ===== src/Job/Status/Samples.antt =====
-- blueprint/job.c: the status of jobs that are given.
use pyoneer.Prelude.{◌≡◌, arith}
use pyoneer.Job.{job_get_status}
use pyoneer.Job.Status.{IsDerived, job_get_status-IsDerived}
use pyoneer.Job.Samples.{mixed_job}

job_get_status-IsDerived_example :
    IsDerived mixed_job.tasks (job_get_status mixed_job).1
    × ((job_get_status mixed_job).0.status ≡ (job_get_status mixed_job).1)
    × ((job_get_status mixed_job).0.tasks ≡ mixed_job.tasks)
    × ((job_get_status mixed_job).0.size ≡ mixed_job.size)
job_get_status-IsDerived_example = job_get_status-IsDerived mixed_job (ground arith)
