-- ===== src/Json/Push/Cases.antt =====
-- shared/json-helpers.c where an allocation may fail.
use pyoneer.Prelude.{◌≡◌, ◌⊎◌, inl, inr, some, String, arith}
use pyoneer.Memory.{Supply}
use pyoneer.Json.{Json, Fields, object, string, push_field}
use pyoneer.Json.Builder.{JsonApi}
use pyoneer.Json.Push.{add_string}
use pyoneer.Prelude.{Option}

-- What an action on an object with these entries may do.
abbrev pub Adds : Fields → String → Json → Option (Option Json × Supply) → Type 0
Adds fs key v o =
    (s' : Supply) × ((o ≡ some (some (object fs), s'))
      ⊎ (o ≡ some (some (object (push_field fs key v)), s')))

module _ (api : JsonApi) (fs : Fields) (key : String) where
  pub add_string-Adds :
      (t : String) (s : Supply)
      → Adds fs key (string t) (add_string api (some (object fs)) key (some t) s)
  unfolding add_string
  add_string-Adds t s = elim ((api.string_new_lem t).0 s) [
    | inl e ↦ ((api.string_new t s).1, inl (ground arith))
    | inr e ↦ elim ((api.object_push_lem fs key (string t)).0 (api.string_new t s).1) [
      | inl f ↦ (
        (api.object_push (object fs) key (string t) (api.string_new t s).1).1,
        inl (ground arith),
      )
      | inr f ↦ (
        (api.object_push (object fs) key (string t) (api.string_new t s).1).1,
        inr (ground arith),
      )
    ]
  ]
