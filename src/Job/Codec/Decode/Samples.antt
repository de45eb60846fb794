-- ===== src/Job/Codec/Decode/Samples.antt =====
-- blueprint/job.c: a job that goes through JSON.
use pyoneer.Prelude.{String, str_eq, eq_iff, ◌≢◌, ◌≡◌, refl, some, [], ◌∷◌, true, false, arith}
use pyoneer.Json.{Json}
use pyoneer.Json.Builder.{one_block_api}
use pyoneer.Job.Codec.{job_encode, job_decode}
use pyoneer.Job.Codec.Encode.{job_json}
use pyoneer.Job.Codec.Decode.{restored, job_decode-job_encode}
use pyoneer.Memory.{Gives}
use pyoneer.Job.Codec.Sound.{IsFresh, job_decode-IsFresh}
use pyoneer.Job.Samples.{mixed_job}

filled : (t : String) → str_eq t "" ≡ false → t ≢ ""
filled t e q = ground (arith, eq_iff t "")

job_decode-job_encode_example :
    (j : Json) × (job_encode one_block_api mixed_job [] ≡ some (some j, []))
    × (job_decode (some j) [] ≡ some (some (restored mixed_job), []))
job_decode-job_encode_example =
    job_decode-job_encode one_block_api mixed_job (record { counted = refl; positive = refl })
      (omega arith) (ground arith)
      (("a", refl, filled "a" refl), (("b", refl, filled "b" refl), tt))

-- The second task cannot be allocated.
job_decode-IsFresh_example :
    Gives IsFresh (job_decode (some (job_json mixed_job)) (true ∷ true ∷ true ∷ false ∷ []))
job_decode-IsFresh_example =
    job_decode-IsFresh (some (job_json mixed_job)) (true ∷ true ∷ true ∷ false ∷ [])
