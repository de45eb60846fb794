-- ===== src/Json/Compare.antt =====
-- shared/json-helpers.c: the comparison of two values.
pub mod Same
use pyoneer.Prelude.{
  ℕ, zero, suc, ◌+◌, ◌*◌, ◌%◌, ◌^◌, String, Bool, true, false, not, ◌&&◌, ◌||◌, Option, none, some,
  ltb, ◌==◌, str_eq, if◌then◌else◌,
}
use pyoneer.Prelude.Int.{ℤ, pos, negsuc, ◌==ℤ◌}
use pyoneer.Json.{
  Json, untyped, object, array, integer, double, string, boolean, null, Items, nil, cons, Fields,
  end, field, type_code, find_field,
}

-- `u.array.length` and `u.object.length`
unfoldable pub length_items : Items → ℕ
length_items nil = 0
length_items (cons v vs) = length_items vs + 1

unfoldable pub length_fields : Fields → ℕ
length_fields end = 0
length_fields (field k v fs) = length_fields fs + 1

-- The largest exponent with a mantissa, whatever the sign; and the two zeros.
abbrev pub is_nan : ℕ → Bool
is_nan d = ltb (2047 * 2 ^ 52) (d % 2 ^ 63)

abbrev pub is_zero : ℕ → Bool
is_zero d = d % 2 ^ 63 == 0

-- `==` of two doubles.
abbrev pub double_eq : ℕ → ℕ → Bool
double_eq d e = not (is_nan d) && not (is_nan e) && (d == e || is_zero d && is_zero e)

abbrev pub bool_eq : Bool → Bool → Bool
bool_eq true b = b
bool_eq false b = not b

unfoldable mutual
  pub compare_values : Json → Json → ℕ
  compare_values untyped untyped = 0
  compare_values null null = 0
  compare_values (integer a) (integer b) = if a ==ℤ b then 0 else 3
  compare_values (double a) (double b) = if double_eq a b then 0 else 4
  compare_values (boolean a) (boolean b) = if bool_eq a b then 0 else 6
  compare_values (string a) (string b) = if str_eq a b then 0 else 5
  compare_values (array xs) (array ys) =
      let rest = compare_items xs ys in if length_items xs == length_items ys then rest else 2
  compare_values (object fs) (object gs) =
      let rest = compare_fields fs gs in if length_fields fs == length_fields gs then rest else 1
  compare_values v w = type_code v

  -- The loop over the arrays, which have the same length.
  pub compare_items : Items → Items → ℕ
  compare_items nil ys = 0
  compare_items (cons x xs) nil = 2
  compare_items (cons x xs) (cons y ys) =
      let rest = compare_items xs ys in if compare_values x y == 0 then rest else 2

  -- The loop over the entries of the first object.
  pub compare_fields : Fields → Fields → ℕ
  compare_fields end gs = 0
  compare_fields (field k v fs) gs =
      let rest = compare_fields fs gs in
      elim (find_field gs k) [ none ↦ 1 | some w ↦ if compare_values v w == 0 then rest else 1 ]

unfoldable pub json_value_compare : Option Json → Option Json → ℤ
unfolding compare_values
json_value_compare (some v) (some w) = pos (compare_values v w)
json_value_compare _ _ = negsuc 0
