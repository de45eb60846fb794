-- ===== src/Job/Names.antt =====
-- The codes and options of a job (blueprint/job.h). `other` is any int outside an enumeration.
use pyoneer.Prelude.{ℕ}

pub data JobStatus : Type 0 where
  not_ready ready running completed incomplete other : JobStatus

pub data ExecMode : Type 0 where
  sequential parallel other : ExecMode

pub data RunMode : Type 0 where
  once repeat other : RunMode

-- `job_opts_t`
pub record JobOpts : Type 0 where
  pub size : ℕ
  pub exec_mode : ExecMode
  pub run_mode : RunMode

-- `sizeof(job_opts_t)`: a `size_t` and two enumerations, with no padding.
abbrev pub opts_size : ℕ
opts_size = 16

-- `job_runner_info_t`
pub record JobRunnerInfo : Type 0 where
  pub size : ℕ
  pub attempts : ℕ
  pub completions : ℕ
  pub successes : ℕ
