-- ===== src/Worker/Sound/Replies.antt =====
-- pyoneer/worker.c: the commands with their replies, and who owns the job after them.
use pyoneer.Prelude.{ℕ, ◌≢◌, Bool, Option, none, some, if◌then◌else◌}
use pyoneer.Memory.{Supply, pure, Ends, Ends-after, Ends-if, deref}
use pyoneer.Json.{Json}
use pyoneer.Json.Builder.{JsonApi}
use pyoneer.Json.Push.{push_entry, add_integer}
use pyoneer.Job.{job_get_id}
use pyoneer.Job.Codec.{job_encode_status}
use pyoneer.Engine.{Answers}
use pyoneer.Worker.{Worker, update_status, run_locked}
use pyoneer.Worker.Commands.{
  worker_status_map, push_job, fill_status, get_status, worker_get_status, worker_run,
}
use pyoneer.Worker.Sound.{IsSound, update_status-IsSound, write-IsSound, run_locked-IsSound}

module _ (api : JsonApi) where
  abbrev SoundResult : Option Json × Worker → Type 0
  SoundResult r = IsSound r.1

  push_job-IsSound :
      (held : Option ℕ) (w : Worker) (obj : Option Json) (s : Supply)
      → IsSound w
      → Ends SoundResult (push_job api held w obj s)
  unfolding push_job
  push_job-IsSound none w obj s sound =
      Ends-after SoundResult (push_entry api obj "job" (api.null_new s).0) (λ obj'. pure (obj', w))
        (api.null_new s).1 (λ obj' s'. sound)
  push_job-IsSound (some a) w obj s sound =
      Ends-after SoundResult (deref (w.engine.jobs a)) _ s (λ job s₁.
        Ends-after SoundResult (job_encode_status api job) _ s₁ (λ encoded s₂.
          Ends-after SoundResult (add_integer api encoded.0 "id" (job_get_id encoded.1)) _ s₂
            (λ job_status s₃.
              Ends-after SoundResult (push_entry api obj "job" job_status) _ s₃
                (λ obj' s₄. write-IsSound w a encoded.1 sound))))

  fill_status-IsSound :
      (w : Worker) (obj : Option Json) (s : Supply)
      → IsSound w
      → Ends SoundResult (fill_status api w obj s)
  unfolding fill_status
  fill_status-IsSound w none s sound = sound
  fill_status-IsSound w (some obj) s sound =
      Ends-after SoundResult (worker_status_map api w.status) _ s (λ status s₁.
        Ends-after SoundResult (push_entry api (some obj) "status" status) _ s₁
          (λ obj' s₂. push_job-IsSound w.job w obj' s₂ sound))

  get_status-IsSound : (w : Worker) (s : Supply) → IsSound w → Ends SoundResult (get_status api w s)
  unfolding get_status
  get_status-IsSound w s sound =
      fill_status-IsSound (update_status w) (api.object_new s).0 (api.object_new s).1
        (update_status-IsSound w sound)

  reply-IsSound :
      (r : Bool × Worker) (s : Supply)
      → IsSound r.1
      → Ends SoundResult ((if r.0 then get_status api r.1 else pure (none, r.1)) s)
  reply-IsSound r s sound =
      Ends-if SoundResult r.0 (get_status api r.1) (pure (none, r.1)) s
        (get_status-IsSound r.1 s sound) sound

  -- `worker_get_status` keeps it, and `worker_run` of a job at another address.
  pub worker_get_status-IsSound :
      (ans : Answers) (w : Worker) (s : Supply)
      → IsSound w
      → Ends SoundResult (worker_get_status api ans w s)
  unfolding worker_get_status
  worker_get_status-IsSound ans w s sound =
      Ends-if SoundResult ans.locked (get_status api w) (pure (none, w)) s
        (get_status-IsSound w s sound) sound

  pub worker_run-IsSound :
      (ans : Answers) (a : ℕ) (w : Worker) (s : Supply)
      → w.job ≢ some a
      → IsSound w
      → Ends SoundResult (worker_run api ans (some a) w s)
  unfolding worker_run
  worker_run-IsSound ans a w s fresh sound =
      Ends-if SoundResult ans.locked _ (pure (none, w)) s
        (reply-IsSound (run_locked ans a w) s (run_locked-IsSound ans a w fresh sound)) sound
