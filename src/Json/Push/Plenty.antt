-- ===== src/Json/Push/Plenty.antt =====
-- shared/json-helpers.c where no allocation fails: what each helper leaves.
use pyoneer.Prelude.{◌≡◌, some, String, [], arith}
use pyoneer.Prelude.Int.{ℤ}
use pyoneer.Json.{
  Json, Items, Fields, end, nil, object, array, string, integer, push_item, push_field,
}
use pyoneer.Json.Builder.{JsonApi}
use pyoneer.Json.Push.{add_string, add_integer, push_entry, push_element}

module _ (api : JsonApi) where
  pub object_new_plenty : api.object_new [] ≡ (some (object end), [])
  object_new_plenty = api.object_new_lem.1

  pub array_new_plenty : api.array_new [] ≡ (some (array nil), [])
  array_new_plenty = api.array_new_lem.1

  pub string_new_plenty : (t : String) → api.string_new t [] ≡ (some (string t), [])
  string_new_plenty t = (api.string_new_lem t).1

  module _ (fs : Fields) (key : String) where
    pub add_string_plenty :
        (t : String)
        → add_string api (some (object fs)) key (some t) []
          ≡ some (some (object (push_field fs key (string t))), [])
    unfolding add_string
    add_string_plenty t =
        ground (arith, (api.string_new_lem t).1, (api.object_push_lem fs key (string t)).1)

    pub add_integer_plenty :
        (z : ℤ)
        → add_integer api (some (object fs)) key z []
          ≡ some (some (object (push_field fs key (integer z))), [])
    unfolding add_integer
    add_integer_plenty z =
        ground (arith, (api.integer_new_lem z).1, (api.object_push_lem fs key (integer z)).1)

    pub push_entry_plenty :
        (v : Json)
        → push_entry api (some (object fs)) key (some v) []
          ≡ some (some (object (push_field fs key v)), [])
    unfolding push_entry
    push_entry_plenty v = rw ((api.object_push_lem fs key v).1)

  pub push_element_plenty :
      (xs : Items) (v : Json)
      → push_element api (some (array xs)) (some v) [] ≡ some (some (array (push_item xs v)), [])
  unfolding push_element
  push_element_plenty xs v = rw ((api.array_push_lem xs v).1)
