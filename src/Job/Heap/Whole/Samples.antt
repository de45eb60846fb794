-- ===== src/Job/Heap/Whole/Samples.antt =====
-- blueprint/job.c: a job of two tasks in memory, and one that is given up.
use pyoneer.Prelude.{refl, Bool, true, false, none, some, List, [], ◌∷◌, String}
use pyoneer.Prelude.Int.{pos}
use pyoneer.Json.{Json, nil, cons, end, field, object, array, integer, string}
use pyoneer.Job.Codec.{job_decode}
use pyoneer.Job.Heap.{Heap, job_decode_heap}
use pyoneer.Job.Heap.Decode.{Decoded}
use pyoneer.Job.Heap.Whole.{job_decode-Decoded}

abbrev task_value : String → Json
task_value name = object (field "name" (string name) end)

abbrev value : Json
value = object (
    field "id" (integer (pos 7))
      (field "tasks" (array (cons (task_value "a") (cons (task_value "b") nil))) end))

abbrev start : List Bool → Heap
start supply = record { supply = supply; blocks = λ a. none; fresh = 0 }

-- The node of the second task cannot be allocated.
abbrev short : Heap
short = start (true ∷ true ∷ true ∷ true ∷ true ∷ true ∷ false ∷ [])

job_decode-Decoded_example :
    Decoded (λ a. none) (job_decode (some value) short.supply) (job_decode_heap (some value) short)
job_decode-Decoded_example = job_decode-Decoded (some value) short (λ a far. refl)
