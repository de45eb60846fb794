-- ===== src/Json/Compare/Same.antt =====
-- shared/json-helpers.c: the comparison, and what it is for two values to be the same.
mod Samples
use pyoneer.Prelude.{
  Bool, false, str_eq, ap, sym, ◌+◌, if◌then◌else◌, ◌==◌, ℕ, ◌≡◌, ◌≢◌, ◌↔◌, refl, Option, true,
  none, some, arith, eq_iff, Bool-cases, ◌⊎◌, inl, inr,
}
use mathlib.Core.Bool.{true≢false}
use mathlib.Core.Option.{some_inj}
use mathlib.Core.Path.{subst}
use pyoneer.Prelude.Int.{pos, negsuc, ◌==ℤ◌, ==ℤ_iff}
use pyoneer.Json.{
  Json, untyped, object, array, integer, double, string, boolean, null, Items, nil, cons, Fields,
  end, field, type_code, find_field,
}
use pyoneer.Json.Compare.{
  double_eq, bool_eq, length_items, length_fields, compare_values, compare_items, compare_fields,
  json_value_compare,
}

mutual
  -- Equal scalars; arrays with the same values at the same places; objects with as many entries, where the name of each entry of
  -- the first is found in the second with the same value. A value without a type is the same as any.
  pub Same : Json → Json → Type 0
  Same untyped w = Unit
  Same null null = Unit
  Same (integer a) (integer b) = a ≡ b
  Same (double a) (double b) = double_eq a b ≡ true
  Same (boolean a) (boolean b) = a ≡ b
  Same (string a) (string b) = a ≡ b
  Same (array xs) (array ys) = SameItems xs ys
  Same (object fs) (object gs) = (length_fields fs ≡ length_fields gs) × AllFound fs gs
  Same v w = ⊥

  SameItems : Items → Items → Type 0
  SameItems nil nil = Unit
  SameItems (cons x xs) (cons y ys) = Same x y × SameItems xs ys
  SameItems xs ys = ⊥

  AllFound : Fields → Fields → Type 0
  AllFound end gs = Unit
  AllFound (field k v fs) gs = ((w : Json) × (find_field gs k ≡ some w) × Same v w) × AllFound fs gs

zero_iff : (b : Bool) (n : ℕ) → ((if b then 0 else n + 1) ≡ 0) ↔ (b ≡ true)
zero_iff true n = (λ e. refl, λ s. refl)
zero_iff false n = (λ e. absurd (omega (arith, e)), λ s. absurd (true≢false (sym s)))

bool_eq_iff : (a b : Bool) → (bool_eq a b ≡ true) ↔ (a ≡ b)
bool_eq_iff true true = (λ e. refl, λ s. refl)
bool_eq_iff true false = (sym, sym)
bool_eq_iff false true = (λ e. e, λ e. e)
bool_eq_iff false false = (λ e. refl, λ s. refl)

untyped_zero : (w : Json) → compare_values untyped w ≡ 0
unfolding compare_values type_code
untyped_zero untyped = refl
untyped_zero _ = refl

pos_inj : (m n : ℕ) → pos m ≡ pos n → m ≡ n
pos_inj m n e = ap (λ z. elim z [ pos k ↦ k | negsuc k ↦ 0 ]) e

-- A result behind a test of two lengths.
guarded : (m n r c : ℕ) → (if m == n then r else c + 1) ≡ 0 → (m ≡ n) × (r ≡ 0)
guarded m n r c e = ground (arith, e)

unguarded : (m n r c : ℕ) → (m ≡ n) × (r ≡ 0) → (if m == n then r else c + 1) ≡ 0
unguarded m n r c (e, z) = ground (arith, e, z)

-- One round of the loop over the entries, before a rest with the code `r`.
found-Same :
    (v : Json) (r : ℕ) (Rest : Type 0)
    → ((w : Json) → (compare_values v w ≡ 0) ↔ Same v w)
    → (r ≡ 0) ↔ Rest
    → (o : Option Json)
    → ((elim o as (λ _. ℕ) [ none ↦ 1 | some w ↦ if compare_values v w == 0 then r else 1 ]) ≡ 0)
      ↔ (((w : Json) × (o ≡ some w) × Same v w) × Rest)
found-Same v r Rest values rest none =
    (λ z. absurd (omega (arith, z)), λ ((w, h, same), s). absurd (ground (arith, h)))
found-Same v r Rest values rest (some w) = (
  λ z. let (c, r₀) = guarded (compare_values v w) 0 r 0 z in ((w, refl, (values w).0 c), rest.0 r₀),
  λ ((u, h, same), s).
      unguarded (compare_values v w) 0 r 0
        ((values w).1 (subst (λ o. Same v o) (sym (some_inj.0 h)) same), rest.1 s),
)

mutual
  unfolding compare_values Same type_code length_items

  values-Same : (v w : Json) → (compare_values v w ≡ 0) ↔ Same v w
  values-Same untyped w = (λ e. tt, λ s. untyped_zero w)
  values-Same null null = (λ e. tt, λ s. refl)
  values-Same null _ = (λ e. absurd (omega (arith, e)), λ s. absurd s)
  values-Same (integer a) (integer b) = (
    λ e. (==ℤ_iff a b).0 ((zero_iff (a ==ℤ b) 2).0 e),
    λ s. (zero_iff (a ==ℤ b) 2).1 ((==ℤ_iff a b).1 s),
  )
  values-Same (integer a) _ = (λ e. absurd (omega (arith, e)), λ s. absurd s)
  values-Same (double a) (double b) = zero_iff (double_eq a b) 3
  values-Same (double a) _ = (λ e. absurd (omega (arith, e)), λ s. absurd s)
  values-Same (boolean a) (boolean b) = (
    λ e. (bool_eq_iff a b).0 ((zero_iff (bool_eq a b) 5).0 e),
    λ s. (zero_iff (bool_eq a b) 5).1 ((bool_eq_iff a b).1 s),
  )
  values-Same (boolean a) _ = (λ e. absurd (omega (arith, e)), λ s. absurd s)
  values-Same (string a) (string b) = (
    λ e. (eq_iff a b).0 ((zero_iff (str_eq a b) 4).0 e),
    λ s. (zero_iff (str_eq a b) 4).1 ((eq_iff a b).1 s),
  )
  values-Same (string a) _ = (λ e. absurd (omega (arith, e)), λ s. absurd s)
  values-Same (array xs) (array ys) = (
    λ e. (items-SameItems xs ys).0 (guarded (length_items xs) _ _ 1 e),
    λ s. unguarded (length_items xs) _ _ 1 ((items-SameItems xs ys).1 s),
  )
  values-Same (array xs) _ = (λ e. absurd (omega (arith, e)), λ s. absurd s)
  values-Same (object fs) (object gs) = (
    λ e.
        let (n, f) = guarded (length_fields fs) (length_fields gs) _ 0 e in
        (n, (fields-AllFound fs gs).0 f),
    λ (n, f). unguarded (length_fields fs) (length_fields gs) _ 0 (n, (fields-AllFound fs gs).1 f),
  )
  values-Same (object fs) _ = (λ e. absurd (omega (arith, e)), λ s. absurd s)

  items-SameItems :
      (xs ys : Items)
      → ((length_items xs ≡ length_items ys) × (compare_items xs ys ≡ 0)) ↔ SameItems xs ys
  items-SameItems nil nil = (λ e. tt, λ s. (refl, refl))
  items-SameItems nil (cons y ys) = (λ e. absurd (omega (arith, e.0)), λ s. absurd s)
  items-SameItems (cons x xs) nil = (λ e. absurd (omega (arith, e.0)), λ s. absurd s)
  items-SameItems (cons x xs) (cons y ys) = (
    λ (n, e).
        let (z, r) = guarded (compare_values x y) 0 (compare_items xs ys) 1 e in
        ((values-Same x y).0 z, (items-SameItems xs ys).0 (omega (arith, n), r)),
    λ (v, s).
        let (n, r) = (items-SameItems xs ys).1 s in
        (
          omega (arith, n),
          unguarded (compare_values x y) 0 (compare_items xs ys) 1 ((values-Same x y).1 v, r),
        ),
  )

  fields-AllFound : (fs gs : Fields) → (compare_fields fs gs ≡ 0) ↔ AllFound fs gs
  fields-AllFound end gs = (λ e. tt, λ s. refl)
  fields-AllFound (field k v fs) gs =
      found-Same v (compare_fields fs gs) (AllFound fs gs) (λ w. values-Same v w)
        (fields-AllFound fs gs) (find_field gs k)

-- Two values compare as equivalent, with the code 0, exactly if they are the same: scalars by their value, arrays place by place,
-- and objects if they have as many entries and each name of the first is found in the second, with a value that is the
-- same. A value without a type alone is taken as the same as any other.
pub json_value_compare-Same :
    (v w : Json) → (json_value_compare (some v) (some w) ≡ pos 0) ↔ Same v w
unfolding json_value_compare
json_value_compare-Same v w = (
  λ e. (values-Same v w).0 (pos_inj (compare_values v w) 0 e),
  λ s. ap pos ((values-Same v w).1 s),
)
