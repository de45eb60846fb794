-- ===== src/Json/Push.antt =====
-- shared/json-helpers.c: the helpers that add an entry to an object. Each returns its code and the
-- object as it is after the call, NULL if it was NULL; a failed call leaves the object as it was.
pub mod Plenty
pub mod Cases
use pyoneer.Prelude.{ℕ, Bool, Option, none, some, String, true, false, ◌==◌, if◌then◌else◌}
use pyoneer.Prelude.Int.{ℤ, pos, negsuc}
use pyoneer.Memory.{Run, pure, fault, deref, call, ◌>>=◌}
use pyoneer.Json.{Json, object, type_code}
use pyoneer.Json.Builder.{JsonApi}

abbrev pub Pushed : Type 0
Pushed = ℤ × Option Json

abbrev failed : Option Json → Run Pushed
failed obj = pure (negsuc 0, obj)

module _ (api : JsonApi) where
  -- A value that is refused is freed, which the model does not show.
  unfoldable pub json_object_push_value : Option Json → Option String → Option Json → Run Pushed
  unfolding type_code
  json_object_push_value (some o) (some key) (some value) =
      if type_code o == 1
      then (do
        (done, o') ← call (api.object_push o key value)
        if done then pure (pos 0, some o') else failed (some o'))
      else failed (some o)
  json_object_push_value obj key value = failed obj

  -- The end of the helpers below: they return -1 if the library could not make the value.
  push_new : Json → String → Option Json → Run Pushed
  unfolding json_object_push_value
  push_new o key none = failed (some o)
  push_new o key (some v) = json_object_push_value (some o) (some key) (some v)

  unfoldable pub json_object_push_string : Option Json → Option String → Option String → Run Pushed
  unfolding push_new
  json_object_push_string (some o) (some key) (some str) = do
    val ← call (api.string_new str)
    push_new o key val
  json_object_push_string obj key str = failed obj

  unfoldable pub json_object_push_integer : Option Json → Option String → ℤ → Run Pushed
  unfolding push_new
  json_object_push_integer (some o) (some key) integer = do
    val ← call (api.integer_new integer)
    push_new o key val
  json_object_push_integer obj key integer = failed obj

  unfoldable pub json_object_push_double : Option Json → Option String → ℕ → Run Pushed
  unfolding push_new
  json_object_push_double (some o) (some key) dbl = do
    val ← call (api.double_new dbl)
    push_new o key val
  json_object_push_double obj key dbl = failed obj

  unfoldable pub json_object_push_boolean : Option Json → Option String → Bool → Run Pushed
  unfolding push_new
  json_object_push_boolean (some o) (some key) boolean = do
    val ← call (api.boolean_new boolean)
    push_new o key val
  json_object_push_boolean obj key boolean = failed obj

  unfoldable pub json_object_push_null : Option Json → Option String → Run Pushed
  unfolding push_new
  json_object_push_null (some o) (some key) = do val ← call api.null_new; push_new o key val
  json_object_push_null obj key = failed obj

  -- `json_object_push` dereferences the object at once, and the value after it has copied the name.
  unfoldable pub push_to : Json → String → Option Json → Run (Option Json)
  push_to o key none = do
    reached ← call (api.object_push_null o key)
    if reached then fault else pure (some o)
  push_to o key (some v) = do (done, o') ← call (api.object_push o key v); pure (some o')

  unfoldable pub push_entry : Option Json → String → Option Json → Run (Option Json)
  unfolding push_to
  push_entry obj key value = do o ← deref obj; push_to o key value

  -- `json_array_push` dereferences both pointers.
  unfoldable pub push_element : Option Json → Option Json → Run (Option Json)
  push_element arr value = do
    a ← deref arr
    v ← deref value
    (done, a') ← call (api.array_push a v)
    pure (some a')

  -- The statements that ignore the code of a helper and go on with the same object.
  unfoldable pub add_string : Option Json → String → Option String → Run (Option Json)
  unfolding json_object_push_string
  add_string obj key str = do (code, obj') ← json_object_push_string obj (some key) str; pure obj'

  unfoldable pub add_integer : Option Json → String → ℤ → Run (Option Json)
  unfolding json_object_push_integer
  add_integer obj key integer = do
    (code, obj') ← json_object_push_integer obj (some key) integer
    pure obj'
