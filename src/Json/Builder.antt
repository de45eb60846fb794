-- ===== src/Json/Builder.antt =====
-- The calls of the JSON library (shared/json-builder.c, a copy of another project's code): a record
-- of its operations and of what its documentation says of them. Each may fail to allocate.
use pyoneer.Prelude.{
  ℕ, Bool, true, false, Option, none, some, [], ◌∷◌, ◌≡◌, refl, ◌⊎◌, inl, inr, String,
}
use pyoneer.Prelude.Int.{ℤ}
use pyoneer.Memory.{Supply}
use pyoneer.Json.{
  Json, Items, nil, Fields, end, object, array, integer, string, boolean, double, null, push_item,
  push_field,
}

-- A constructor returns the new value, or NULL.
abbrev pub IsNew : Json → (Supply → Option Json × Supply) → Type 0
IsNew v f = ((s : Supply) → ((f s).0 ≡ none) ⊎ ((f s).0 ≡ some v)) × (f [] ≡ (some v, []))

-- A push makes the object longer and returns the value, or leaves it and returns NULL.
abbrev pub IsPush : Json → Json → (Supply → (Bool × Json) × Supply) → Type 0
IsPush old new f =
    ((s : Supply) → ((f s).0 ≡ (false, old)) ⊎ ((f s).0 ≡ (true, new))) × (f [] ≡ ((true, new), []))

pub record JsonApi : Type 0 where
  pub object_new : Supply → Option Json × Supply
  pub array_new : Supply → Option Json × Supply
  pub string_new : String → Supply → Option Json × Supply
  pub integer_new : ℤ → Supply → Option Json × Supply
  pub double_new : ℕ → Supply → Option Json × Supply
  pub boolean_new : Bool → Supply → Option Json × Supply
  pub null_new : Supply → Option Json × Supply
  pub object_push : Json → String → Json → Supply → (Bool × Json) × Supply
  -- A push of NULL: true if the call comes to the value, which it then dereferences; false if it has
  -- returned before, since the copy of the name could not be allocated.
  pub object_push_null : Json → String → Supply → Bool × Supply
  pub array_push : Json → Json → Supply → (Bool × Json) × Supply
  pub object_new_lem : IsNew (object end) object_new
  pub array_new_lem : IsNew (array nil) array_new
  pub string_new_lem : (t : String) → IsNew (string t) (string_new t)
  pub integer_new_lem : (z : ℤ) → IsNew (integer z) (integer_new z)
  pub double_new_lem : (d : ℕ) → IsNew (double d) (double_new d)
  pub boolean_new_lem : (b : Bool) → IsNew (boolean b) (boolean_new b)
  pub null_new_lem : IsNew null null_new
  pub object_push_lem :
      (fs : Fields) (k : String) (v : Json)
      → IsPush (object fs) (object (push_field fs k v)) (object_push (object fs) k v)
  pub array_push_lem :
      (xs : Items) (v : Json) → IsPush (array xs) (array (push_item xs v)) (array_push (array xs) v)

-- An implementation: each call makes one allocation.
abbrev pub alloc_value : Json → Supply → Option Json × Supply
alloc_value v [] = (some v, [])
alloc_value v (true ∷ s) = (some v, s)
alloc_value v (false ∷ s) = (none, s)

abbrev pub alloc_push : Json → Json → Supply → (Bool × Json) × Supply
alloc_push old new [] = ((true, new), [])
alloc_push old new (true ∷ s) = ((true, new), s)
alloc_push old new (false ∷ s) = ((false, old), s)

abbrev pub alloc_name : Supply → Bool × Supply
alloc_name [] = (true, [])
alloc_name (b ∷ s) = (b, s)

abbrev pub object_with : Json → String → Json → Json
object_with (object fs) k v = object (push_field fs k v)
object_with o k v = o

abbrev pub array_with : Json → Json → Json
array_with (array xs) v = array (push_item xs v)
array_with a v = a

pub alloc_value-IsNew : (v : Json) → IsNew v (alloc_value v)
alloc_value-IsNew v = (pick, refl)
  where
    pick : (s : Supply) → ((alloc_value v s).0 ≡ none) ⊎ ((alloc_value v s).0 ≡ some v)
    pick [] = inr refl
    pick (true ∷ s) = inr refl
    pick (false ∷ s) = inl refl

pub alloc_push-IsPush : (old new : Json) → IsPush old new (alloc_push old new)
alloc_push-IsPush old new = (pick, refl)
  where
    pick :
        (s : Supply)
        → ((alloc_push old new s).0 ≡ (false, old)) ⊎ ((alloc_push old new s).0 ≡ (true, new))
    pick [] = inr refl
    pick (true ∷ s) = inr refl
    pick (false ∷ s) = inl refl

abbrev pub one_block_api : JsonApi
one_block_api = record {
  object_new = alloc_value (object end);
  array_new = alloc_value (array nil);
  string_new = λ t. alloc_value (string t);
  integer_new = λ z. alloc_value (integer z);
  double_new = λ d. alloc_value (double d);
  boolean_new = λ b. alloc_value (boolean b);
  null_new = alloc_value null;
  object_push = λ o k v. alloc_push o (object_with o k v);
  object_push_null = λ o k. alloc_name;
  array_push = λ a v. alloc_push a (array_with a v);
  object_new_lem = alloc_value-IsNew (object end);
  array_new_lem = alloc_value-IsNew (array nil);
  string_new_lem = λ t. alloc_value-IsNew (string t);
  integer_new_lem = λ z. alloc_value-IsNew (integer z);
  double_new_lem = λ d. alloc_value-IsNew (double d);
  boolean_new_lem = λ b. alloc_value-IsNew (boolean b);
  null_new_lem = alloc_value-IsNew null;
  object_push_lem = λ fs k v. alloc_push-IsPush (object fs) (object (push_field fs k v));
  array_push_lem = λ xs v. alloc_push-IsPush (array xs) (array (push_item xs v));
}
