-- ===== src/Json.antt =====
-- The values of the JSON library, as the program reads them (shared/json.h), their look-up and
-- comparison (shared/json-helpers.c). A C string is its text up to the first NUL, which is all that
-- the program reads of `u.string.ptr` and of an entry's name. A double is its IEEE 754 bit pattern.
pub mod Builder
pub mod Push
pub mod Compare
use pyoneer.Prelude.{
  ℕ, ◌+◌, ◌-◌, ◌%◌, ◌^◌, String, Bool, true, false, not, ◌&&◌, ◌||◌, Option, none, some, List, [],
  ◌∷◌, ltb, ◌==◌, str_eq, if◌then◌else◌,
}
use pyoneer.Prelude.Int.{ℤ, pos, negsuc, ◌==ℤ◌}

mutual
  -- `json_value`: a constructor for each `json_type`.
  pub data Json : Type 0 where
    untyped : Json
    object : Fields → Json
    array : Items → Json
    integer : ℤ → Json
    double : ℕ → Json
    string : String → Json
    boolean : Bool → Json
    null : Json

  pub data Items : Type 0 where
    nil : Items
    cons : Json → Items → Items

  pub data Fields : Type 0 where
    end : Fields
    field : String → Json → Fields → Fields

-- `json_type`, as the number of its enumerator
unfoldable pub type_code : Json → ℕ
type_code untyped = 0
type_code (object fs) = 1
type_code (array xs) = 2
type_code (integer z) = 3
type_code (double d) = 4
type_code (string s) = 5
type_code (boolean b) = 6
type_code null = 7

-- The arrays grow at their end.
unfoldable pub push_item : Items → Json → Items
push_item nil v = cons v nil
push_item (cons x xs) v = cons x (push_item xs v)

unfoldable pub push_field : Fields → String → Json → Fields
push_field end k v = field k v end
push_field (field j w fs) k v = field j w (push_field fs k v)

-- The loop of `json_object_get_value` over the entries: the first of that name.
unfoldable pub find_field : Fields → String → Option Json
find_field end name = none
find_field (field j v fs) name = if str_eq j name then some v else find_field fs name

-- `obj` and `name` may be NULL.
unfoldable pub json_object_get_value : Option Json → Option String → Option Json
unfolding find_field
json_object_get_value none name = none
json_object_get_value (some obj) none = none
json_object_get_value (some (object fs)) (some name) = find_field fs name
json_object_get_value (some obj) (some name) = none
