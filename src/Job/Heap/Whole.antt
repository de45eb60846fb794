-- ===== src/Job/Heap/Whole.antt =====
-- blueprint/job.c: job_decode as a whole, from the heap that it is called in.
mod Samples
use pyoneer.Prelude.{
  ◌≡◌, ◌≢◌, refl, sym, ap, ◌∙◌, ℕ, ◌+◌, String, Bool, true, false, Option, none, some, List, [],
  ◌∷◌, ◌++◌, if◌then◌else◌, ◌==◌, ◌||◌, Bool-cases, inl, inr, arith,
}
use pyoneer.Prelude.Int.{ℤ, le_zero, to_int}
use pyoneer.Memory.{Supply}
use pyoneer.Memory
use pyoneer.Json.{Json, Items, Fields, object, array, integer, json_object_get_value}
use pyoneer.Job.{Job, JobStatus, JobOpts, job_create, job_set_opts, job_opts_default}
use pyoneer.Job.Codec.{
  decode_exec_mode, decode_run_mode, decode_tasks, decode_members, decode_required, job_decode,
}
use pyoneer.Job.Heap.{
  Heap, Blocks, put, job_block, ◌>>=◌, outcome, alloc, job_create_heap, job_set_opts_heap,
  decode_tasks_heap, decode_members_heap, decode_required_heap, job_decode_heap,
}
use pyoneer.Job.Heap.Chain.{Cell, elem, job_blocks, IsJob}
use pyoneer.Job.Heap.Owned.{Owns, IsHeap, Owns-nothing, Owns-alloc, Owns-store}
use pyoneer.Job.Heap.Add.{put_self}
use pyoneer.Job.Heap.Run.{alloc_run, alloc_fail}
use pyoneer.Job.Heap.Decode.{Decoded, decode_tasks-Decoded}

-- A new job with the options that were set: its one block.
abbrev with_job : Job → Supply → Heap → Heap
with_job job s h = record {
  supply = s;
  blocks = put h.blocks h.fresh (
      some (
        job_block (record {
          id = job.id;
          status = job.status;
          size = job.size;
          opts = job.opts;
          head = none;
          tail = none;
        })));
  fresh = h.fresh + 1;
}

elem_self : (a : ℕ) → elem a (a ∷ []) ≡ true
elem_self a = ground arith

abbrev new_job : ℤ → Job
new_job id = record {
  id = id;
  status = JobStatus.ready;
  size = 0;
  opts = job_opts_default;
  tasks = [];
}

job_create-outcome :
    (id : ℤ) (s : Supply)
    → le_zero id ≡ false
    → job_create id s ≡ some ((if (outcome s).0 then some (new_job id) else none), (outcome s).1)
unfolding job_create
job_create-outcome id [] e = rw e refl
job_create-outcome id (b ∷ s) e = rw e refl

job_create-refused : (id : ℤ) (s : Supply) → le_zero id ≡ true → job_create id s ≡ some (none, s)
unfolding job_create
job_create-refused id s e = rw e refl

job_create_heap_run :
    (id : ℤ) (h : Heap)
    → le_zero id ≡ false
    → (outcome h.supply).0 ≡ true
    → job_create_heap id h ≡ some (some h.fresh, with_job (new_job id) (outcome h.supply).1 h)
unfolding job_create_heap
job_create_heap_run id h e ok = rw e (alloc_run h _ ok)

job_create_heap_fail :
    (id : ℤ) (h : Heap)
    → le_zero id ≡ false
    → (outcome h.supply).0 ≡ false
    → job_create_heap id h ≡ some (none, record h { supply = (outcome h.supply).1 })
unfolding job_create_heap
job_create_heap_fail id h e fails = rw e (alloc_fail h _ fails)

job_create_heap_refused :
    (id : ℤ) (h : Heap) → le_zero id ≡ true → job_create_heap id h ≡ some (none, h)
unfolding job_create_heap
job_create_heap_refused id h e = rw e refl

-- The heap behind `job_set_opts`.
abbrev with_opts : ℤ → JobOpts → Heap → Heap
with_opts id opts h = record (with_job (new_job id) (outcome h.supply).1 h) {
  blocks = put (with_job (new_job id) (outcome h.supply).1 h).blocks h.fresh (
      some (
        job_block (record {
          id = id;
          status = JobStatus.ready;
          size = 0;
          opts = (job_set_opts (new_job id) (some opts)).opts;
          head = none;
          tail = none;
        })));
}

job_set_opts_run :
    (id : ℤ) (opts : JobOpts) (h : Heap)
    → job_set_opts_heap h.fresh (some opts) (with_job (new_job id) (outcome h.supply).1 h)
      ≡ some (tt, with_opts id opts h)
unfolding job_set_opts_heap
job_set_opts_run id opts h =
    rw (put_self h.blocks h.fresh _, ◌>>=◌)
      (ap (λ old. elim old [ none ↦ none | some block ↦ some (tt, with_opts id opts h) ])
        (put_self h.blocks h.fresh _))

with_opts-IsJob :
    (id : ℤ) (opts : JobOpts) (h : Heap)
    → IsJob (with_opts id opts h).blocks h.fresh [] (job_set_opts (new_job id) (some opts))
unfolding job_set_opts
with_opts-IsJob id opts h = record {
  header = put_self (with_job (new_job id) (outcome h.supply).1 h).blocks h.fresh _;
  chain = tt;
  distinct = (refl, tt);
  size_counts = refl;
  tasks_are = refl;
}

with_opts-Owns :
    (id : ℤ) (opts : JobOpts) (h : Heap)
    → IsHeap h
    → Owns h.blocks (h.fresh ∷ []) (with_opts id opts h)
with_opts-Owns id opts h is =
    let first = with_job (new_job id) (outcome h.supply).1 h in
    Owns-store h.blocks (h.fresh ∷ []) first (with_opts id opts h) h.fresh _ (elem_self h.fresh)
      refl refl (Owns-alloc h.blocks [] h first _ refl refl (Owns-nothing h is))

-- The options that the object names.
abbrev named_opts : Fields → JobOpts
named_opts fs = record job_opts_default {
  exec_mode =
      decode_exec_mode (json_object_get_value (some (object fs)) (some "execMode"))
        job_opts_default.exec_mode;
  run_mode =
      decode_run_mode (json_object_get_value (some (object fs)) (some "runMode"))
        job_opts_default.run_mode;
}

-- `job_decode` behind its tests.
decode_members-Decoded :
    (fs : Fields) (id : ℤ) (tasks : Items) (h : Heap)
    → IsHeap h
    → Decoded h.blocks (decode_members fs id tasks h.supply) (decode_members_heap fs id tasks h)
unfolding decode_members decode_members_heap Decoded
decode_members-Decoded fs id tasks h is = elim (Bool-cases (le_zero (to_int id))) [
  | inl e ↦
      rw (job_create-refused (to_int id) h.supply e, Memory.◌>>=◌)
        (rw (job_create_heap_refused (to_int id) h e, ◌>>=◌) (refl, λ a. refl))
  | inr e ↦ elim (Bool-cases (outcome h.supply).0) [
    | inl ok ↦
        rw (job_create-outcome (to_int id) h.supply e, Memory.◌>>=◌)
          (rw ok (
            rw (job_create_heap_run (to_int id) h e ok, ◌>>=◌)
              (rw (job_set_opts_run (to_int id) (named_opts fs) h, ◌>>=◌)
                (decode_tasks-Decoded h.blocks tasks h.fresh [] _
                  (with_opts (to_int id) (named_opts fs) h)
                  (with_opts-IsJob (to_int id) (named_opts fs) h)
                  (with_opts-Owns (to_int id) (named_opts fs) h is)))))
    | inr fails ↦
        rw (job_create-outcome (to_int id) h.supply e, Memory.◌>>=◌)
          (rw fails (rw (job_create_heap_fail (to_int id) h e fails, ◌>>=◌) (refl, λ a. refl)))
  ]
]

decode_required-Decoded :
    (fs : Fields) (id tasks : Option Json) (h : Heap)
    → IsHeap h
    → Decoded h.blocks (decode_required fs id tasks h.supply) (decode_required_heap fs id tasks h)
unfolding decode_required decode_required_heap Decoded
decode_required-Decoded fs (some (integer id)) (some (array tasks)) h is =
    decode_members-Decoded fs id tasks h is
decode_required-Decoded fs id tasks h is = (refl, λ a. refl)

-- `job_decode` on the blocks of a heap, whatever allocations fail, does what it does on lists: it has no undefined behaviour, and gives
-- NULL for both or the job of both, in the blocks of its own. Nothing is lost: where it gives NULL the
-- heap is as it was before, and where it gives a job, `job_destroy` frees each of its blocks once, after
-- which the heap is as it was before.
pub job_decode-Decoded :
    (value : Option Json) (h : Heap)
    → IsHeap h
    → Decoded h.blocks (job_decode value h.supply) (job_decode_heap value h)
unfolding job_decode job_decode_heap Decoded
job_decode-Decoded none h is = (refl, λ a. refl)
job_decode-Decoded (some (object fs)) h is = decode_required-Decoded fs _ _ h is
job_decode-Decoded (some value) h is = (refl, λ a. refl)
