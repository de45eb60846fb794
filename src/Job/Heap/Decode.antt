-- ===== src/Job/Heap/Decode.antt =====
-- blueprint/job.c: job_decode on a heap gives the job that job_decode gives as a list, and loses nothing.
use mathlib.Core.Path.{subst}
use pyoneer.Prelude.{
  ◌≡◌, refl, ℕ, true, false, Option, none, some, List, [], ◌∷◌, if◌then◌else◌, Bool-cases, inl, inr,
}
use pyoneer.Memory.{Supply}
use pyoneer.Memory
use pyoneer.Json.{Json, Items, nil, cons, object, string, json_object_get_value}
use pyoneer.Task.{Task, decode_name, task_decode}
use pyoneer.Job.{Job, append_task, job_add_task}
use pyoneer.Job.Codec.{decode_tasks}
use pyoneer.Job.Heap.{
  Heap, Blocks, ◌>>=◌, outcome, task_destroy_heap, job_destroy_heap, job_add_task_heap,
  decode_name_heap, task_decode_heap, decode_tasks_heap,
}
use pyoneer.Job.Heap.Chain.{Cell, own_name, job_blocks, IsJob}
use pyoneer.Job.Heap.Destroy.{without, task_destroy_run, job_destroy_run}
use pyoneer.Job.Heap.Owned.{Owns, Owns-supply, erase-Owns}
use pyoneer.Job.Heap.Add.{Holding, with_task}
use pyoneer.Job.Heap.Take.{job_add_task_heap-takes}
use pyoneer.Job.Heap.Run.{job_add_task_heap-fails}
use pyoneer.Job.Heap.Release.{task-IsDistinct, IsJob-without_task, both-erased}
use pyoneer.Job.Heap.Given.{TaskGiven, task_create-TaskGiven}

-- Nothing is left of what was allocated.
abbrev pub IsBack : Blocks → Heap → Type 0
IsBack before h = (a : ℕ) → h.blocks a ≡ before a

-- The outcome of a function that gives a job, beside that of the same function on lists: no job in both,
-- and the heap as it was before, or a job in both, whose destruction leaves the heap as it was before.
unfoldable pub Decoded : Blocks → Option (Option Job × Supply) → Option (Option ℕ × Heap) → Type 0
Decoded before (some (none, s)) (some (none, h)) = (h.supply ≡ s) × IsBack before h
Decoded before (some (some job, s)) (some (some j, h)) =
    (h.supply ≡ s)
    × ((cs : List Cell) × IsJob h.blocks j cs job × Owns before (job_blocks j cs) h)
    × ((h' : Heap) × (job_destroy_heap j h ≡ some (tt, h')) × IsBack before h')
Decoded before expected found = ⊥

destroyed-IsBack :
    (before : Blocks) (h : Heap) (j : ℕ) (cs : List Cell)
    → Owns before (job_blocks j cs) h
    → IsBack before (without (job_blocks j cs) h)
destroyed-IsBack before h j cs owns a = erase-Owns before (job_blocks j cs) h a owns

-- The job is given up.
given_up :
    (before : Blocks) (h : Heap) (j : ℕ) (cs : List Cell) (job : Job)
    → IsJob h.blocks j cs job
    → Owns before (job_blocks j cs) h
    → Decoded before
        (some (none, h.supply))
        ((job_destroy_heap j >>= λ destroyed h'. some (none, h')) h)
unfolding Decoded
given_up before h j cs job is owns =
    rw (job_destroy_run h j cs job is, ◌>>=◌) (refl, destroyed-IsBack before h j cs owns)

decode_name-TaskGiven :
    (before : Blocks) (j : ℕ) (cs : List Cell) (job : Job) (v : Option Json) (h : Heap)
    → IsJob h.blocks j cs job
    → Owns before (job_blocks j cs) h
    → TaskGiven before j cs job h (decode_name v h.supply) (decode_name_heap v h)
unfolding decode_name TaskGiven
decode_name-TaskGiven before j cs job (some (string s)) h is owns =
    task_create-TaskGiven before j cs job s h.blocks h.fresh is
      (λ supply. Owns-supply before (job_blocks j cs) h _ refl refl owns) h.supply
decode_name-TaskGiven before j cs job v h is owns = refl

task_decode-TaskGiven :
    (before : Blocks) (j : ℕ) (cs : List Cell) (job : Job) (v : Json) (h : Heap)
    → IsJob h.blocks j cs job
    → Owns before (job_blocks j cs) h
    → TaskGiven before j cs job h (task_decode (some v) h.supply) (task_decode_heap v h)
unfolding task_decode task_decode_heap TaskGiven
task_decode-TaskGiven before j cs job (object fs) h is owns =
    decode_name-TaskGiven before j cs job (json_object_get_value (some (object fs)) (some "name")) h
      is owns
task_decode-TaskGiven before j cs job v h is owns = refl

job_add_task-outcome :
    (job : Job) (task : Task) (s : Supply)
    → job_add_task job task s
      ≡ some ((if (outcome s).0 then (true, append_task job task) else (false, job)), (outcome s).1)
unfolding job_add_task
job_add_task-outcome job task [] = refl
job_add_task-outcome job task (b ∷ s) = refl

Holding-supply :
    (before : Blocks) (j : ℕ) (cs : List Cell) (job : Job) (t : ℕ) (name : Option ℕ) (task : Task)
    (h : Heap) (s : Supply)
    → Holding before j cs job t name task h
    → Holding before j cs job t name task (record h { supply = s })
Holding-supply before j cs job t name task h s holding = record {
  is_job = holding.is_job;
  has_task = holding.has_task;
  distinct = holding.distinct;
  owns = Owns-supply before (with_task j cs t name) h _ refl refl holding.owns;
}

-- The task and the job are given up.
both_given_up :
    (before : Blocks) (h : Heap) (j : ℕ) (cs : List Cell) (job : Job) (t : ℕ) (name : Option ℕ)
    (task : Task)
    → Holding before j cs job t name task h
    → Decoded before (some (none, h.supply)) (
        (task_destroy_heap t >>= λ task_gone. job_destroy_heap j >>= λ job_gone h'. some (none, h'))
          h)
unfolding Decoded
both_given_up before h j cs job t name task holding =
    rw
      (
        task_destroy_run h t name task holding.has_task
            (task-IsDistinct j t cs name holding.distinct),
        ◌>>=◌,
      )
      (rw
        (
          job_destroy_run (without (own_name name (t ∷ [])) h) j cs job
              (IsJob-without_task h.blocks j t cs name job holding.distinct holding.is_job),
          ◌>>=◌,
        )
        (refl, λ a. both-erased before h j t cs name a holding.owns))

module _ (before : Blocks) (vs : Items) (j : ℕ) where
  -- The rest of the loop.
  abbrev Rest : Type 0
  Rest =
      (cs : List Cell) (job : Job) (h : Heap)
      → IsJob h.blocks j cs job
      → Owns before (job_blocks j cs) h
      → Decoded before (decode_tasks vs job h.supply) (decode_tasks_heap vs j h)

  after_add :
      (cs : List Cell) (job : Job) (t : ℕ) (name : Option ℕ) (task : Task) (h : Heap)
      → Rest
      → Holding before j cs job t name task h
      → Decoded before
          (Memory.◌>>=◌
            (job_add_task job task)
            (λ (added, job'). if added then decode_tasks vs job' else Memory.pure none)
            h.supply)
          ((job_add_task_heap j t >>= λ added. elim added [
            | true ↦ decode_tasks_heap vs j
            | false ↦
                (task_destroy_heap t >>= λ task_gone.
                job_destroy_heap j >>= λ job_gone h'. some (none, h'))
          ])
            h)
  unfolding Decoded
  after_add cs job t name task h rest holding = elim (Bool-cases (outcome h.supply).0) [
    | inl ok ↦
        let (h', taken) = job_add_task_heap-takes before j t name task job h ok cs holding in
        rw (job_add_task-outcome job task h.supply, Memory.◌>>=◌)
          (rw ok (
            rw (taken.runs, ◌>>=◌)
              (subst
                (λ s.
                  Decoded before (decode_tasks vs (append_task job task) s)
                    (decode_tasks_heap vs j h'))
                taken.supplied (rest _ _ h' taken.is_job taken.owns))))
    | inr fails ↦
        rw (job_add_task-outcome job task h.supply, Memory.◌>>=◌)
          (rw fails (
            rw (job_add_task_heap-fails h j t fails, ◌>>=◌)
              (both_given_up before _ j cs job t name task
                (Holding-supply before j cs job t name task h (outcome h.supply).1 holding))))
  ]

  -- A turn of the loop.
  after_task :
      (cs : List Cell) (job : Job) (h : Heap) (expected : Option (Option Task × Supply))
      (found : Option (Option ℕ × Heap))
      → Rest
      → IsJob h.blocks j cs job
      → Owns before (job_blocks j cs) h
      → TaskGiven before j cs job h expected found
      → Decoded before
          (Memory.◌>>=◌
            (λ s. expected)
            (λ decoded. elim decoded [
              | none ↦ Memory.pure none
              | some task ↦
                  Memory.◌>>=◌
                    (job_add_task job task)
                    (λ (added, job'). if added then decode_tasks vs job' else Memory.pure none)
            ])
            h.supply)
          (((λ h'. found) >>= λ decoded. elim decoded [
            | none ↦ (job_destroy_heap j >>= λ destroyed h'. some (none, h'))
            | some task ↦
                (job_add_task_heap j task >>= λ added. elim added [
                  | true ↦ decode_tasks_heap vs j
                  | false ↦
                      (task_destroy_heap task >>= λ task_gone.
                      job_destroy_heap j >>= λ job_gone h'. some (none, h'))
                ])
          ])
            h)
  unfolding TaskGiven Decoded
  after_task cs job h none found rest is owns given = absurd given
  after_task cs job h (some (none, s)) none rest is owns given = absurd given
  after_task cs job h (some (none, s)) (some (none, h')) rest is owns given = rw given (
      given_up before (record h { supply = s }) j cs job is
        (Owns-supply before (job_blocks j cs) h _ refl refl owns))
  after_task cs job h (some (none, s)) (some (some t, h')) rest is owns given = absurd given
  after_task cs job h (some (some task, s)) none rest is owns given = absurd given
  after_task cs job h (some (some task, s)) (some (none, h')) rest is owns given = absurd given
  after_task cs job h (some (some task, s)) (some (some t, h')) rest is owns
        (supplied, (name, holding)) =
      rw (← supplied) (after_add cs job t name task h' rest holding)

-- The loop of `job_decode`.
pub decode_tasks-Decoded :
    (before : Blocks) (vs : Items) (j : ℕ) (cs : List Cell) (job : Job) (h : Heap)
    → IsJob h.blocks j cs job
    → Owns before (job_blocks j cs) h
    → Decoded before (decode_tasks vs job h.supply) (decode_tasks_heap vs j h)
unfolding decode_tasks decode_tasks_heap Decoded
decode_tasks-Decoded before nil j cs job h is owns = (
  refl,
  (cs, is, owns),
  (without (job_blocks j cs) h, job_destroy_run h j cs job is, destroyed-IsBack before h j cs owns),
)
decode_tasks-Decoded before (cons v vs) j cs job h is owns =
    after_task before vs j cs job h (task_decode (some v) h.supply) (task_decode_heap v h)
      (decode_tasks-Decoded before vs j) is owns (task_decode-TaskGiven before j cs job v h is owns)
