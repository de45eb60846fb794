-- ===== src/Job/Heap/Owned.antt =====
-- blueprint/job.c and task.c: heaps that are a heap from before and the blocks that were allocated since.
use pyoneer.Prelude.{
  ◌≡◌, refl, sym, ◌∙◌, inl, inr, ℕ, ◌+◌, ◌<◌, ◌≤◌, true, false, Option, none, some, List, [], ◌∷◌,
  ◌++◌, ◌==◌, if◌then◌else◌, Bool-cases, arith,
}
use pyoneer.Job.Heap.{Heap, Block, Blocks, put}
use pyoneer.Job.Heap.Chain.{elem, elem-++, IsDistinct, erase}

-- Nothing stands at the addresses that were not given out.
abbrev pub IsHeap : Heap → Type 0
IsHeap h = (a : ℕ) → h.fresh ≤ a → h.blocks a ≡ none

pub record Owns (before : Blocks) (bs : List ℕ) (h : Heap) : Type 0 where
  pub outside : (a : ℕ) → elem a bs ≡ false → h.blocks a ≡ before a
  pub inside : (a : ℕ) → elem a bs ≡ true → (before a ≡ none) × (a < h.fresh)
  pub above : IsHeap h

pub Owns-nothing : (h : Heap) → IsHeap h → Owns h.blocks [] h
Owns-nothing h is = record {
  outside = λ a out. refl;
  inside = λ a inn. absurd (ground (arith, inn));
  above = is;
}

module _ (before : Blocks) where
  pub fresh-out : (bs : List ℕ) (h : Heap) → Owns before bs h → elem h.fresh bs ≡ false
  fresh-out bs h owns = elim (Bool-cases (elem h.fresh bs)) [
    | inl e ↦ absurd (omega (arith, (owns.inside h.fresh e).1))
    | inr e ↦ e
  ]

  pub Owns-supply :
      (bs : List ℕ) (h h' : Heap)
      → h'.blocks ≡ h.blocks
      → h'.fresh ≡ h.fresh
      → Owns before bs h
      → Owns before bs h'
  Owns-supply bs h h' same fresh owns = record {
    outside = λ a out. rw same (owns.outside a out);
    inside = λ a inn. ((owns.inside a inn).0, rw fresh (owns.inside a inn).1);
    above = λ a far. rw same (owns.above a (ground (arith, fresh, far)));
  }

  pub Owns-cong :
      (bs cs : List ℕ) (h : Heap)
      → ((a : ℕ) → elem a bs ≡ elem a cs)
      → Owns before bs h
      → Owns before cs h
  Owns-cong bs cs h same owns = record {
    outside = λ a out. owns.outside a (same a ∙ out);
    inside = λ a inn. owns.inside a (same a ∙ inn);
    above = owns.above;
  }

  -- A block more.
  pub Owns-alloc :
      (bs : List ℕ) (h h' : Heap) (block : Block)
      → h'.blocks ≡ put h.blocks h.fresh (some block)
      → h'.fresh ≡ h.fresh + 1
      → Owns before bs h
      → Owns before (h.fresh ∷ bs) h'
  Owns-alloc bs h h' block new fresh owns = record {
    outside = λ a out. rw new (ground (arith, out, owns.outside a (ground (arith, out))));
    inside = λ a inn. elim (Bool-cases (h.fresh == a)) [
      | inl e ↦ (
        sym (owns.outside a (ground (arith, e, fresh-out bs h owns)))
            ∙ owns.above a (ground (arith, e)),
        ground (arith, e, fresh),
      )
      | inr e ↦ (
        (owns.inside a (ground (arith, e, inn))).0,
        ground (arith, fresh, (owns.inside a (ground (arith, e, inn))).1),
      )
    ];
    above = λ a far. rw new (ground (arith, far, fresh, owns.above a (ground (arith, far, fresh))));
  }

  -- A write to a block of its own.
  pub Owns-store :
      (bs : List ℕ) (h h' : Heap) (b : ℕ) (v : Option Block)
      → elem b bs ≡ true
      → h'.blocks ≡ put h.blocks b v
      → h'.fresh ≡ h.fresh
      → Owns before bs h
      → Owns before bs h'
  Owns-store bs h h' b v mine new fresh owns = record {
    outside = λ a out. rw new (elim (Bool-cases (b == a)) [
      | inl e ↦ absurd (ground (arith, e, mine, out))
      | inr e ↦ rw e (owns.outside a out)
    ]);
    inside = λ a inn. ((owns.inside a inn).0, rw fresh (owns.inside a inn).1);
    above = λ a far. rw new (elim (Bool-cases (b == a)) [
      | inl e ↦ absurd (ground (arith, e, fresh, far, (owns.inside b mine).1))
      | inr e ↦ rw e (owns.above a (ground (arith, fresh, far)))
    ]);
  }

erase-elem :
    (bs : List ℕ) (blocks : Blocks) (a : ℕ)
    → erase bs blocks a ≡ (if elem a bs then none else blocks a)
erase-elem [] blocks a = refl
erase-elem (b ∷ bs) blocks a = erase-elem bs (put blocks b none) a ∙ ground arith

-- What is left once all of it is freed.
pub erase-Owns :
    (before : Blocks) (bs : List ℕ) (h : Heap) (a : ℕ)
    → Owns before bs h
    → erase bs h.blocks a ≡ before a
erase-Owns before bs h a owns = elim (Bool-cases (elem a bs)) [
  | inl e ↦ erase-elem bs h.blocks a ∙ rw e (sym (owns.inside a e).0)
  | inr e ↦ erase-elem bs h.blocks a ∙ rw e (owns.outside a e)
]

-- A new element may stand anywhere.
pub IsDistinct-insert :
    (bs cs : List ℕ) (a : ℕ)
    → elem a (bs ++ cs) ≡ false
    → IsDistinct (bs ++ cs)
    → IsDistinct (bs ++ a ∷ cs)
IsDistinct-insert [] cs a out distinct = (out, distinct)
IsDistinct-insert (b ∷ bs) cs a out (apart, distinct) = (
  ground (arith, out, apart, elem-++ b bs (a ∷ cs), elem-++ b bs cs),
  IsDistinct-insert bs cs a (ground (arith, out)) distinct,
)
