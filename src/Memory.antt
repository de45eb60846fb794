-- ===== src/Memory.antt =====
-- What a C function can do besides computing: ask the allocator, and dereference a null pointer.
-- The allocator is an input: the outcomes of the calls still to come. A function that returns a
-- pointer has an `Option`, with `none` for NULL; `none` of a `Run` is the fault itself.
use pyoneer.Prelude.{Bool, true, false, if◌then◌else◌, Option, none, some, List, [], ◌∷◌}

-- Outcomes of the allocations to come, in order; the ones that are not listed succeed.
abbrev pub Supply : Type 0
Supply = List Bool

abbrev pub Run {ℓ} : Type ℓ → Type ℓ
Run A = Supply → Option (A × Supply)

module _ {ℓ} {A : Type ℓ} where
  abbrev pub pure : A → Run A
  pure a s = some (a, s)

  -- The undefined behaviour of a null dereference; on the program's platforms it is a crash.
  abbrev pub fault : Run A
  fault s = none

  -- `*p`, or a call of a function that dereferences its argument.
  abbrev pub deref : Option A → Run A
  deref none s = none
  deref (some a) s = some (a, s)

  -- A call that asks the allocator and cannot fault.
  abbrev pub call : (Supply → A × Supply) → Run A
  call f s = some (f s)

infixl 5 ◌>>=◌ ◌>>◌
abbrev pub ◌>>=◌ {ℓ κ} : {A : Type ℓ} {B : Type κ} → Run A → (A → Run B) → Run B
◌>>=◌ m f s = elim (m s) [ none ↦ none | some (a, s') ↦ f a s' ]

abbrev pub ◌>>◌ {ℓ κ} : {A : Type ℓ} {B : Type κ} → Run A → Run B → Run B
m >> k = m >>= λ _. k

-- `malloc(..) != NULL`
abbrev pub malloc : Run Bool
malloc [] = some (true, [])
malloc (b ∷ s) = some (b, s)

-- The action does not fault, and the pointer that it gives is NULL or has the property.
abbrev pub Gives {ℓ} : {A : Type ℓ} → (A → Type 0) → Option (Option A × Supply) → Type 0
Gives P none = ⊥
Gives P (some (none, s)) = Unit
Gives P (some (some a, s)) = P a

-- What comes after it may assume the property.
pub Gives-bind {ℓ κ} :
    {A : Type ℓ} {B : Type κ} (P : A → Type 0) (Q : B → Type 0) (m : Run (Option A))
    (k : Option A → Run (Option B)) (s : Supply)
    → Gives P (m s)
    → ((s' : Supply) → Gives Q (k none s'))
    → ((a : A) (s' : Supply) → P a → Gives Q (k (some a) s'))
    → Gives Q ((m >>= k) s)
Gives-bind {A} P Q m k s given on_none on_some = go (m s) given
  where
    go :
        (r : Option (Option A × Supply))
        → Gives P r
        → Gives Q (elim r [ none ↦ none | some (a, s') ↦ k a s' ])
    go none h = absurd h
    go (some (none, s')) h = on_none s'
    go (some (some a, s')) h = on_some a s' h

-- If the action does not fault, its result has the property.
abbrev pub Ends {ℓ} : {A : Type ℓ} → (A → Type 0) → Option (A × Supply) → Type 0
Ends P none = Unit
Ends P (some (a, s)) = P a

module _ {ℓ κ} {A : Type ℓ} {B : Type κ} (Q : B → Type 0) where
  pub Ends-bind :
      (P : A → Type 0) (m : Run A) (k : A → Run B) (s : Supply)
      → Ends P (m s)
      → ((a : A) (s' : Supply) → P a → Ends Q (k a s'))
      → Ends Q ((m >>= k) s)
  Ends-bind P m k s ends then_ = go (m s) ends
    where
      go :
          (r : Option (A × Supply))
          → Ends P r
          → Ends Q (elim r [ none ↦ none | some (a, s') ↦ k a s' ])
      go none h = tt
      go (some (a, s')) h = then_ a s' h

  -- Nothing is needed of what comes before.
  pub Ends-after :
      (m : Run A) (k : A → Run B) (s : Supply)
      → ((a : A) (s' : Supply) → Ends Q (k a s'))
      → Ends Q ((m >>= k) s)
  Ends-after m k s then_ = go (m s)
    where
      go : (r : Option (A × Supply)) → Ends Q (elim r [ none ↦ none | some (a, s') ↦ k a s' ])
      go none = tt
      go (some (a, s')) = then_ a s'

-- Both branches end with the property.
pub Ends-if {ℓ} :
    {A : Type ℓ} (P : A → Type 0) (b : Bool) (x y : Run A) (s : Supply)
    → Ends P (x s)
    → Ends P (y s)
    → Ends P ((if b then x else y) s)
Ends-if P true x y s ends ends' = ends
Ends-if P false x y s ends ends' = ends'

pub Ends-map {ℓ} :
    {A : Type ℓ} (P Q : A → Type 0) (r : Option (A × Supply))
    → Ends P r
    → ((a : A) → P a → Q a)
    → Ends Q r
Ends-map P Q none ends weaken = tt
Ends-map P Q (some (a, s)) ends weaken = weaken a ends
