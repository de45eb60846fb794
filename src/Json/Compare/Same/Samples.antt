-- ===== src/Json/Compare/Same/Samples.antt =====
-- shared/json-helpers.c: two objects with the same entries in another order.
use pyoneer.Prelude.{◌≡◌, ◌↔◌, true, some}
use pyoneer.Prelude.Int.{pos}
use pyoneer.Json.{Json, object, array, integer, string, boolean, nil, cons, end, field}
use pyoneer.Json.Compare.{json_value_compare}
use pyoneer.Json.Compare.Same.{Same, json_value_compare-Same}

abbrev tags : Json
tags = array (cons (string "a") (cons (boolean true) nil))

abbrev sample : Json
sample = object (field "id" (integer (pos 3)) (field "tags" tags end))

abbrev swapped : Json
swapped = object (field "tags" tags (field "id" (integer (pos 3)) end))

json_value_compare-Same_example :
    (json_value_compare (some sample) (some swapped) ≡ pos 0) ↔ Same sample swapped
json_value_compare-Same_example = json_value_compare-Same sample swapped
