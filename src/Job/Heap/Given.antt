-- ===== src/Job/Heap/Given.antt =====
-- blueprint/task.c: task_create on a heap does what task_create does with a value.
use pyoneer.Prelude.{
  ◌≡◌, refl, ℕ, ◌+◌, String, true, false, Option, none, some, List, [], ◌∷◌, str_eq, Bool-cases,
  inl, inr, arith,
}
use pyoneer.Memory.{Supply}
use pyoneer.Task.{Task, ready, task_create}
use pyoneer.Job.{Job}
use pyoneer.Job.Heap.{Heap, task_block, text_block, Blocks, put, outcome, alloc, task_create_heap}
use pyoneer.Job.Heap.Chain.{Cell, job_blocks, IsJob}
use pyoneer.Job.Heap.Owned.{Owns}
use pyoneer.Job.Heap.Add.{Holding}
use pyoneer.Job.Heap.Create.{nameless-Holding, named-Holding}

-- What a task that was asked for gives, where the list model gives the first: no task, and the heap as it was, or the task.
unfoldable pub TaskGiven :
    Blocks
    → ℕ
    → List Cell
    → Job
    → Heap
    → Option (Option Task × Supply)
    → Option (Option ℕ × Heap)
    → Type 0
TaskGiven before j cs job h (some (none, s)) (some (none, h')) = h' ≡ record h { supply = s }
TaskGiven before j cs job h (some (some task, s)) (some (some t, h')) =
    (h'.supply ≡ s) × ((name : Option ℕ) × Holding before j cs job t name task h')
TaskGiven before j cs job h expected found = ⊥

abbrev heap : Supply → Blocks → ℕ → Heap
heap s blocks fresh = record { supply = s; blocks = blocks; fresh = fresh }

abbrev uncopied : Supply → Blocks → ℕ → Heap
uncopied s blocks fresh = record {
  supply = s;
  blocks =
      put (put blocks fresh (some (task_block ready none))) fresh (some (task_block ready none));
  fresh = fresh + 1;
}

abbrev copied : String → Supply → Blocks → ℕ → Heap
copied name s blocks fresh = record {
  supply = s;
  blocks =
      put
        (put (put blocks fresh (some (task_block ready none))) (fresh + 1) (some (text_block name)))
        fresh (some (task_block ready (some (fresh + 1))));
  fresh = fresh + 1 + 1;
}

uncopied_run :
    (name : String) (s : Supply) (blocks : Blocks) (fresh : ℕ)
    → str_eq name "" ≡ false
    → task_create_heap name (heap (true ∷ false ∷ s) blocks fresh)
      ≡ some (some fresh, uncopied s blocks fresh)
unfolding task_create_heap alloc
uncopied_run name s blocks fresh e = ground (arith, e)

copied_run :
    (name : String) (s : Supply) (blocks : Blocks) (fresh : ℕ)
    → str_eq name "" ≡ false
    → (outcome s).0 ≡ true
    → (outcome (outcome s).1).0 ≡ true
    → task_create_heap name (heap s blocks fresh)
      ≡ some (some fresh, copied name (outcome (outcome s).1).1 blocks fresh)
unfolding task_create_heap alloc
copied_run name [] blocks fresh e ok ok' = ground (arith, e)
copied_run name (false ∷ s) blocks fresh e ok ok' = absurd (ground (arith, ok))
copied_run name (true ∷ []) blocks fresh e ok ok' = ground (arith, e)
copied_run name (true ∷ false ∷ s) blocks fresh e ok ok' = absurd (ground (arith, ok'))
copied_run name (true ∷ true ∷ s) blocks fresh e ok ok' = ground (arith, e)

refused_run :
    (name : String) (s : Supply) (blocks : Blocks) (fresh : ℕ)
    → str_eq name "" ≡ false
    → task_create_heap name (heap (false ∷ s) blocks fresh) ≡ some (none, heap s blocks fresh)
unfolding task_create_heap alloc
refused_run name s blocks fresh e = ground (arith, e)

empty_run :
    (name : String) (h : Heap) → str_eq name "" ≡ true → task_create_heap name h ≡ some (none, h)
unfolding task_create_heap
empty_run name h e = rw e refl

module _ (before : Blocks) (j : ℕ) (cs : List Cell) (job : Job) (name : String) (blocks : Blocks)
    (fresh : ℕ) (is : IsJob blocks j cs job)
    (owns : (s : Supply) → Owns before (job_blocks j cs) (heap s blocks fresh)) where
  given_named :
      (s : Supply)
      → str_eq name "" ≡ false
      → TaskGiven before j cs job
          (heap s blocks fresh)
          (task_create name s)
          (task_create_heap name (heap s blocks fresh))
  unfolding TaskGiven task_create
  given_named [] e = rw e (
      rw (copied_run name [] blocks fresh e refl refl) (
        refl,
        (
          some (fresh + 1),
          named-Holding before j cs job (heap [] blocks fresh) [] is (owns []) name [],
        ),
      ))
  given_named (false ∷ s) e = rw e (rw (refused_run name s blocks fresh e) refl)
  given_named (true ∷ []) e = rw e (
      rw (copied_run name (true ∷ []) blocks fresh e refl refl) (
        refl,
        (
          some (fresh + 1),
          named-Holding before j cs job (heap [] blocks fresh) [] is (owns []) name [],
        ),
      ))
  given_named (true ∷ false ∷ s) e = rw e (
      rw (uncopied_run name s blocks fresh e)
        (refl, (none, nameless-Holding before j cs job (heap s blocks fresh) s is (owns s) s)))
  given_named (true ∷ true ∷ s) e = rw e (
      rw (copied_run name (true ∷ true ∷ s) blocks fresh e refl refl) (
        refl,
        (
          some (fresh + 1),
          named-Holding before j cs job (heap s blocks fresh) s is (owns s) name s,
        ),
      ))

  pub task_create-TaskGiven :
      (s : Supply)
      → TaskGiven before j cs job
          (heap s blocks fresh)
          (task_create name s)
          (task_create_heap name (heap s blocks fresh))
  unfolding TaskGiven task_create
  task_create-TaskGiven s = elim (Bool-cases (str_eq name "")) [
    | inl e ↦ rw e (rw (empty_run name (heap s blocks fresh) e) refl)
    | inr e ↦ given_named s e
  ]
