-- ===== src/Prelude/Texts.antt =====
-- Texts as the C library builds them: concatenation, the copy into a buffer, and numbers in decimal.
use Prim.Native.Char.{Char, char, IsScalar}
use Prim.Native.String.{String, [], ◌∷◌}
use Prim.Native.Nat.{ℕ, zero, suc, ◌+◌, ◌-◌, ◌/◌, ◌%◌, ◌^◌, ◌≤◌, ◌<◌}
use mathlib.Core.Path.{◌≡◌, refl, ap}
use native.Mathlib.Omega.{arith}
use pyoneer.Prelude.Int.{ℤ, pos, negsuc}

-- The first text and behind it the second.
infixr 65 ◌^^◌
abbrev pub ◌^^◌ : String → String → String
[] ^^ t = t
(c ∷ s) ^^ t = c ∷ (s ^^ t)

-- `strlen`
abbrev pub size : String → ℕ
size [] = 0
size (c ∷ s) = suc (size s)

-- What `snprintf` leaves in a buffer that has room for `n` characters and the end.
abbrev pub truncate : ℕ → String → String
truncate zero s = []
truncate (suc n) [] = []
truncate (suc n) (c ∷ s) = c ∷ truncate n s

pub size-truncate : (n : ℕ) (s : String) → size (truncate n s) ≤ n
size-truncate zero s = omega arith
size-truncate (suc n) [] = omega arith
size-truncate (suc n) (c ∷ s) = omega (arith, size-truncate n s)

pub size-truncate_le : (n : ℕ) (s : String) → size (truncate n s) ≤ size s
size-truncate_le zero s = omega arith
size-truncate_le (suc n) [] = omega arith
size-truncate_le (suc n) (c ∷ s) = omega (arith, size-truncate_le n s)

pub truncate-fits : (n : ℕ) (s : String) → size s ≤ n → truncate n s ≡ s
truncate-fits zero [] h = refl
truncate-fits zero (c ∷ s) h = absurd (omega arith)
truncate-fits (suc n) [] h = refl
truncate-fits (suc n) (c ∷ s) h = ap (λ t. c ∷ t) (truncate-fits n s (omega arith))

pub size-cat : (s t : String) → size (s ^^ t) ≡ size s + size t
size-cat [] t = omega arith
size-cat (c ∷ s) t = omega (arith, size-cat s t)

pub last_digit-IsScalar : (n : ℕ) → IsScalar (b'0' + n % 10)
last_digit-IsScalar n = ground arith

abbrev pub last_digit : ℕ → Char
last_digit n = char (b'0' + n % 10) (last_digit-IsScalar n)

-- The digits of `n` before `out`; as many rounds as `n` says are enough.
unfoldable pub put_digits : ℕ → ℕ → String → String
put_digits zero n out = out
put_digits (suc rounds) zero out = out
put_digits (suc rounds) (suc n) out = put_digits rounds (suc n / 10) (last_digit (suc n) ∷ out)

-- `%d` of a number that is not negative
unfoldable pub print_nat : ℕ → String
unfolding put_digits
print_nat zero = "0"
print_nat (suc n) = put_digits n (suc n / 10) (last_digit (suc n) ∷ [])

unfoldable pub print_int : ℤ → String
unfolding print_nat
print_int (pos n) = print_nat n
print_int (negsuc n) = "-" ∷ print_nat (suc n)

size-put_digits :
    (k rounds n : ℕ) (out : String) → n < 10 ^ k → size (put_digits rounds n out) ≤ k + size out
unfolding put_digits
size-put_digits k zero n out h = omega arith
size-put_digits k (suc rounds) zero out h = omega arith
size-put_digits zero (suc rounds) (suc n) out h = absurd (omega arith)
size-put_digits (suc k) (suc rounds) (suc n) out h =
    omega (arith, size-put_digits k rounds (suc n / 10) (last_digit (suc n) ∷ out) (omega arith))

-- A number below a power of ten has no more digits than that.
pub size-print_nat : (k n : ℕ) → n < 10 ^ suc k → size (print_nat n) ≤ suc k
unfolding print_nat
size-print_nat k zero h = omega arith
size-print_nat k (suc n) h =
    omega (arith, size-put_digits k n (suc n / 10) (last_digit (suc n) ∷ []) (omega arith))

abbrev pub zeros : ℕ → String
zeros zero = []
zeros (suc n) = "0" ∷ zeros n

size-zeros : (n : ℕ) → size (zeros n) ≡ n
size-zeros zero = refl
size-zeros (suc n) = omega (arith, size-zeros n)

-- `%0wd`
unfoldable pub padded : ℕ → ℕ → String
unfolding print_nat
padded w n = zeros (w - size (print_nat n)) ^^ print_nat n

pub size-padded : (k n : ℕ) → n < 10 ^ suc k → size (padded (suc k) n) ≡ suc k
unfolding padded
size-padded k n h = omega (
  arith,
  size-cat (zeros (suc k - size (print_nat n))) (print_nat n),
  size-zeros (suc k - size (print_nat n)),
  size-print_nat k n h,
)

four_digits : padded 4 42 ≡ "0042"
unfolding padded print_nat
four_digits = refl
