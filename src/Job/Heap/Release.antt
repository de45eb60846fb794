-- ===== src/Job/Heap/Release.antt =====
-- blueprint/job.c: a task that is freed beside a job that it did not get into.
use pyoneer.Prelude.{
  ◌≡◌, refl, ap, ◌∙◌, ℕ, true, false, Option, none, some, List, [], ◌∷◌, ◌++◌, Bool-cases, inl, inr,
  arith,
}
use pyoneer.Job.{Job}
use pyoneer.Job.Heap.{Heap, Blocks, put}
use pyoneer.Job.Heap.Chain.{
  Cell, elem, elem-++, IsDistinct, own_name, chain_blocks, job_blocks, IsJob, erase,
}
use pyoneer.Job.Heap.Destroy.{erase-++}
use pyoneer.Job.Heap.Owned.{Owns, Owns-cong, erase-Owns}
use pyoneer.Job.Heap.Append.{IsDistinct-split}
use pyoneer.Job.Heap.Add.{with_task}
use pyoneer.Job.Heap.Create.{IsJob-put}

IsDistinct-back : (bs cs : List ℕ) → IsDistinct (bs ++ cs) → IsDistinct cs
IsDistinct-back [] cs distinct = distinct
IsDistinct-back (b ∷ bs) cs distinct = IsDistinct-back bs cs distinct.1

behind-apart :
    (bs cs : List ℕ) (a : ℕ) → IsDistinct (bs ++ cs) → elem a cs ≡ true → elem a bs ≡ false
behind-apart bs cs a distinct inn = elim (Bool-cases (elem a bs)) [
  | inl e ↦ absurd (ground (arith, inn, (IsDistinct-split bs cs distinct).1 a e))
  | inr e ↦ e
]

not_of_job :
    (a j : ℕ) (cs : List Cell)
    → elem a (chain_blocks cs) ≡ false
    → elem a (j ∷ []) ≡ false
    → elem a (job_blocks j cs) ≡ false
not_of_job a j cs out other = ground (arith, out, other, elem-++ a (chain_blocks cs) (j ∷ []))

task_not_of_job :
    (j t : ℕ) (cs : List Cell)
    → IsDistinct (with_task j cs t none)
    → elem t (job_blocks j cs) ≡ false
task_not_of_job j t cs distinct =
    not_of_job t j cs (behind-apart (chain_blocks cs) (t ∷ j ∷ []) t distinct (ground arith))
      (IsDistinct-back (chain_blocks cs) (t ∷ j ∷ []) distinct).0

named_not_of_job :
    (j t n : ℕ) (cs : List Cell)
    → IsDistinct (with_task j cs t (some n))
    → (elem t (job_blocks j cs) ≡ false)
      × (elem n (job_blocks j cs) ≡ false)
      × (elem n (t ∷ []) ≡ false)
named_not_of_job j t n cs distinct =
    let back = IsDistinct-back (chain_blocks cs) (n ∷ t ∷ j ∷ []) distinct in
    (
      not_of_job t j cs (behind-apart (chain_blocks cs) (n ∷ t ∷ j ∷ []) t distinct (ground arith))
          back.1.0,
      not_of_job n j cs (behind-apart (chain_blocks cs) (n ∷ t ∷ j ∷ []) n distinct (ground arith))
          (ground (arith, back.0)),
      ground (arith, back.0),
    )

-- The blocks of the task are all different.
pub task-IsDistinct :
    (j t : ℕ) (cs : List Cell) (name : Option ℕ)
    → IsDistinct (with_task j cs t name)
    → IsDistinct (own_name name (t ∷ []))
task-IsDistinct j t cs none distinct = (refl, tt)
task-IsDistinct j t cs (some n) distinct = ((named_not_of_job j t n cs distinct).2, (refl, tt))

-- The job stays.
pub IsJob-without_task :
    (blocks : Blocks) (j t : ℕ) (cs : List Cell) (name : Option ℕ) (job : Job)
    → IsDistinct (with_task j cs t name)
    → IsJob blocks j cs job
    → IsJob (erase (own_name name (t ∷ [])) blocks) j cs job
IsJob-without_task blocks j t cs none job distinct is =
    IsJob-put blocks t j none cs job (task_not_of_job j t cs distinct) is
IsJob-without_task blocks j t cs (some n) job distinct is =
    let (out, out_name, _) = named_not_of_job j t n cs distinct in
    IsJob-put (put blocks n none) t j none cs job out (IsJob-put blocks n j none cs job out_name is)

elem-parts :
    (a j t : ℕ) (cs : List Cell) (name : Option ℕ)
    → elem a (with_task j cs t name) ≡ elem a (own_name name (t ∷ []) ++ job_blocks j cs)
elem-parts a j t cs none =
    ground (arith, elem-++ a (chain_blocks cs) (t ∷ j ∷ []), elem-++ a (chain_blocks cs) (j ∷ []))
elem-parts a j t cs (some n) =
    ground
      (arith, elem-++ a (chain_blocks cs) (n ∷ t ∷ j ∷ []), elem-++ a (chain_blocks cs) (j ∷ []))

-- Once both are freed, the heap is as it was before.
pub both-erased :
    (before : Blocks) (h : Heap) (j t : ℕ) (cs : List Cell) (name : Option ℕ) (a : ℕ)
    → Owns before (with_task j cs t name) h
    → erase (job_blocks j cs) (erase (own_name name (t ∷ [])) h.blocks) a ≡ before a
both-erased before h j t cs name a owns =
    ap (λ blocks. blocks a) (erase-++ (own_name name (t ∷ [])) (job_blocks j cs) h.blocks)
    ∙ erase-Owns before (own_name name (t ∷ []) ++ job_blocks j cs) h a
        (Owns-cong before (with_task j cs t name) _ h (λ b. elem-parts b j t cs name) owns)
