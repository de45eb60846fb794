-- ===== src/Options/Decimal.antt =====
-- src/main.c: an integer that is printed in decimal is read back by `strtol`.
use Prim.Native.Char.{code}
use Prim.Native.String.{String, [], ◌∷◌}
use pyoneer.Prelude.{ℕ, zero, suc, ◌/◌, ◌≤◌, ◌≡◌, refl, ap, ◌∙◌, true, arith}
use pyoneer.Prelude.Int.{ℤ, pos, negsuc, to_int, IsInt, to_int_of_IsInt}
use pyoneer.Prelude.Texts.{last_digit, put_digits, print_nat, print_int}
use pyoneer.Options.{is_digit, skip_space, scan, positive, negative, signed, strtol, int_of_text}

-- To read the last digit of a number behind those before it gives the number.
scan-last_digit : (n : ℕ) (out : String) → scan (n / 10) (last_digit n ∷ out) ≡ scan n out
unfolding scan
scan-last_digit n out = ground arith

scan-put_digits :
    (rounds n : ℕ) (out : String) → n ≤ rounds → scan 0 (put_digits rounds n out) ≡ scan n out
unfolding put_digits
scan-put_digits zero n out h = ap (λ (k : ℕ). scan k out) (omega arith)
scan-put_digits (suc rounds) zero out h = refl
scan-put_digits (suc rounds) (suc n) out h =
    scan-put_digits rounds (suc n / 10) (last_digit (suc n) ∷ out) (omega arith)
    ∙ scan-last_digit (suc n) out

scan-print_nat : (n : ℕ) → scan 0 (print_nat n) ≡ n
unfolding print_nat scan
scan-print_nat zero = refl
scan-print_nat (suc n) =
    scan-put_digits n (suc n / 10) (last_digit (suc n) ∷ []) (omega arith)
    ∙ scan-last_digit (suc n) []

-- A text that begins with a digit.
abbrev HasDigit : String → Type 0
HasDigit [] = ⊥
HasDigit (c ∷ s) = is_digit (code c) ≡ true

last_digit-HasDigit : (n : ℕ) (out : String) → HasDigit (last_digit n ∷ out)
last_digit-HasDigit n out = ground arith

put_digits-HasDigit :
    (rounds n : ℕ) (out : String) → HasDigit out → HasDigit (put_digits rounds n out)
unfolding put_digits
put_digits-HasDigit zero n out h = h
put_digits-HasDigit (suc rounds) zero out h = h
put_digits-HasDigit (suc rounds) (suc n) out h =
    put_digits-HasDigit rounds (suc n / 10) (last_digit (suc n) ∷ out)
      (last_digit-HasDigit (suc n) out)

print_nat-HasDigit : (n : ℕ) → HasDigit (print_nat n)
unfolding print_nat
print_nat-HasDigit zero = refl
print_nat-HasDigit (suc n) =
    put_digits-HasDigit n (suc n / 10) (last_digit (suc n) ∷ []) (last_digit-HasDigit (suc n) [])

strtol-digit : (s : String) → HasDigit s → strtol s ≡ positive (scan 0 s)
unfolding strtol skip_space signed
strtol-digit [] h = absurd h
strtol-digit (c ∷ s) h = ground (arith, h)

strtol-dash : (s : String) → strtol ("-" ∷ s) ≡ negative (scan 0 s)
unfolding strtol skip_space signed
strtol-dash s = refl

strtol-print_int : (z : ℤ) → IsInt z → strtol (print_int z) ≡ z
unfolding print_int
strtol-print_int (pos n) h =
    strtol-digit (print_nat n) (print_nat-HasDigit n)
    ∙ ap positive (scan-print_nat n)
    ∙ ground arith
strtol-print_int (negsuc n) h =
    strtol-dash (print_nat (suc n)) ∙ ap negative (scan-print_nat (suc n)) ∙ ground arith

pub int_of_text-print_int : (z : ℤ) → IsInt z → int_of_text (print_int z) ≡ z
unfolding int_of_text
int_of_text-print_int z h = ap to_int (strtol-print_int z h) ∙ to_int_of_IsInt z h
