-- ===== src/Job/Heap/Append.antt =====
-- blueprint/job.c: the links that job_add_task sets, on the blocks of a list.
use pyoneer.Prelude.{
  ◌≡◌, refl, sym, ap, ◌∙◌, inl, inr, ℕ, String, true, false, Option, none, some, List, [], ◌∷◌,
  ◌++◌, ◌==◌, Bool-cases, arith,
}
use pyoneer.Job.Heap.{Block, node_block, Blocks, put}
use pyoneer.Job.Heap.Chain.{
  Cell, elem, elem-++, IsDistinct, own_name, chain_blocks, HasText, Chain, last_node, Chain-put,
}

elem-under_name :
    (a : ℕ) (name : Option ℕ) (bs : List ℕ) → elem a bs ≡ true → elem a (own_name name bs) ≡ true
elem-under_name a none bs inn = inn
elem-under_name a (some b) bs inn = ground (arith, inn)

pub last_node-elem :
    (cs : List Cell) (l : ℕ) → last_node cs ≡ some l → elem l (chain_blocks cs) ≡ true
last_node-elem [] l e = absurd (ground (arith, e))
last_node-elem (c ∷ []) l e = elem-under_name l c.name (c.at ∷ c.node ∷ []) (ground (arith, e))
last_node-elem (c ∷ d ∷ ds) l e =
    elem-under_name l c.name (c.at ∷ c.node ∷ chain_blocks (d ∷ ds))
      (ground (arith, last_node-elem (d ∷ ds) l e))

pub IsDistinct-rest :
    (name : Option ℕ) (bs : List ℕ) → IsDistinct (own_name name bs) → IsDistinct bs
IsDistinct-rest none bs distinct = distinct
IsDistinct-rest (some a) bs distinct = distinct.1

-- The name is another block than those that are freed after it.
HasText-apart :
    (blocks : Blocks) (l : ℕ) (v : Option Block) (name : Option ℕ) (t : Option String) (bs : List ℕ)
    → IsDistinct (own_name name bs)
    → elem l bs ≡ true
    → HasText blocks name t
    → HasText (put blocks l v) name t
HasText-apart blocks l v none none bs distinct inn has = tt
HasText-apart blocks l v none (some t) bs distinct inn has = absurd has
HasText-apart blocks l v (some a) none bs distinct inn has = absurd has
HasText-apart blocks l v (some a) (some t) bs distinct inn has = elim (Bool-cases (l == a)) [
  | inl e ↦ absurd (ground (arith, e, inn, distinct.0))
  | inr e ↦ rw e has
]

elem-apart : (l b : ℕ) (bs : List ℕ) → elem l bs ≡ true → elem b bs ≡ false → (l == b) ≡ false
elem-apart l b bs inn out = elim (Bool-cases (l == b)) [
  | inl e ↦ absurd (ground (arith, e, inn, out))
  | inr e ↦ e
]

-- The last node is there, and a write to its link makes the list go on.
pub Chain-link :
    (blocks : Blocks) (cs : List Cell) (l n : ℕ)
    → Chain blocks cs none
    → IsDistinct (chain_blocks cs)
    → last_node cs ≡ some l
    → (a : ℕ) × (blocks l ≡ some (node_block a none))
      × Chain (put blocks l (some (node_block a (some n)))) cs (some n)
Chain-link blocks [] l n chain distinct e = absurd (ground (arith, e))
Chain-link blocks (c ∷ []) l n (node, (task, text), chain) distinct e =
    let rest = IsDistinct-rest c.name (c.at ∷ c.node ∷ []) distinct in
    (
      c.at,
      ground (arith, node, e),
      (
        ground (arith, e),
        (
          ground (arith, e, rest.0, task),
          HasText-apart blocks l _ c.name c.task.name (c.at ∷ c.node ∷ []) distinct
              (ground (arith, e)) text,
        ),
        tt,
      ),
    )
Chain-link blocks (c ∷ d ∷ ds) l n (node, (task, text), chain) distinct e =
    let rest = IsDistinct-rest c.name (c.at ∷ c.node ∷ chain_blocks (d ∷ ds)) distinct in
    let inn = last_node-elem (d ∷ ds) l e in
    let (a, last, linked) = Chain-link blocks (d ∷ ds) l n chain rest.1.1 e in
    (
      a,
      last,
      (
        rw (elem-apart l c.node (chain_blocks (d ∷ ds)) inn rest.1.0) node,
        (
          rw (elem-apart l c.at (chain_blocks (d ∷ ds)) inn (ground (arith, rest.0))) task,
          HasText-apart blocks l _ c.name c.task.name (c.at ∷ c.node ∷ chain_blocks (d ∷ ds))
              distinct (ground (arith, inn)) text,
        ),
        linked,
      ),
    )

Chain-++ :
    (blocks : Blocks) (cs : List Cell) (c : Cell)
    → Chain blocks cs (some c.node)
    → Chain blocks (c ∷ []) none
    → Chain blocks (cs ++ c ∷ []) none
Chain-++ blocks [] c chain end = end
Chain-++ blocks (b ∷ []) c (node, task, chain) end = (node, task, end)
Chain-++ blocks (b ∷ d ∷ ds) c (node, task, chain) end =
    (node, task, Chain-++ blocks (d ∷ ds) c chain end)

pub last_node-++ : (cs : List Cell) (c : Cell) → last_node (cs ++ c ∷ []) ≡ some c.node
last_node-++ [] c = refl
last_node-++ (b ∷ []) c = refl
last_node-++ (b ∷ d ∷ ds) c = last_node-++ (d ∷ ds) c

pub own_name-++ :
    (name : Option ℕ) (bs cs : List ℕ) → own_name name bs ++ cs ≡ own_name name (bs ++ cs)
own_name-++ none bs cs = refl
own_name-++ (some a) bs cs = refl

pub chain_blocks-++ :
    (cs : List Cell) (c : Cell) (bs : List ℕ)
    → chain_blocks (cs ++ c ∷ []) ++ bs ≡ chain_blocks cs ++ own_name c.name (c.at ∷ c.node ∷ bs)
chain_blocks-++ [] c bs = own_name-++ c.name (c.at ∷ c.node ∷ []) bs
chain_blocks-++ (b ∷ ds) c bs =
    own_name-++ b.name (b.at ∷ b.node ∷ chain_blocks (ds ++ c ∷ [])) bs
    ∙ ap (λ xs. own_name b.name (b.at ∷ b.node ∷ xs)) (chain_blocks-++ ds c bs)
    ∙ sym (
        own_name-++ b.name (b.at ∷ b.node ∷ chain_blocks ds) (own_name c.name (c.at ∷ c.node ∷ bs)))

pub IsDistinct-split :
    (bs cs : List ℕ)
    → IsDistinct (bs ++ cs)
    → IsDistinct bs × ((a : ℕ) → elem a bs ≡ true → elem a cs ≡ false)
IsDistinct-split [] cs distinct = (tt, λ a inn. absurd (ground (arith, inn)))
IsDistinct-split (b ∷ bs) cs (out, distinct) =
    let (front, apart) = IsDistinct-split bs cs distinct in
    (
      (ground (arith, out, elem-++ b bs cs), front),
      λ a inn. elim (Bool-cases (b == a)) [
        | inl e ↦ ground (arith, e, out, elem-++ b bs cs)
        | inr e ↦ apart a (ground (arith, e, inn))
      ],
    )

-- The links of a list that gets a node behind its last one.
pub Chain-append :
    (blocks : Blocks) (cs : List Cell) (l : ℕ) (c : Cell)
    → Chain blocks cs none
    → Chain blocks (c ∷ []) none
    → IsDistinct (chain_blocks cs ++ chain_blocks (c ∷ []))
    → last_node cs ≡ some l
    → (a : ℕ) × (blocks l ≡ some (node_block a none))
      × Chain (put blocks l (some (node_block a (some c.node)))) (cs ++ c ∷ []) none
Chain-append blocks cs l c chain new distinct e =
    let (front, apart) = IsDistinct-split (chain_blocks cs) (chain_blocks (c ∷ [])) distinct in
    let (a, last, linked) = Chain-link blocks cs l c.node chain front e in
    (
      a,
      last,
      Chain-++ _ cs c linked
          (Chain-put blocks l _ (c ∷ []) none (apart l (last_node-elem cs l e)) new),
    )

pub last_node-cases : (c : Cell) (cs : List Cell) → (l : ℕ) × (last_node (c ∷ cs) ≡ some l)
last_node-cases c [] = (c.node, refl)
last_node-cases c (d ∷ ds) = last_node-cases d ds
