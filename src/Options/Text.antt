-- ===== src/Options/Text.antt =====
-- src/main.c: what the flag parser asks of C strings, and `strtol` of the C library in base 10.
use Prim.Native.Char.{code}
use Prim.Native.String.{String, [], ◌∷◌}
use pyoneer.Prelude.{
  ℕ, zero, suc, ◌+◌, ◌-◌, ◌*◌, ◌^◌, Bool, true, false, ◌&&◌, ◌||◌, ltb, leb, ◌==◌, if◌then◌else◌,
}
use pyoneer.Prelude.Int.{ℤ, pos, negsuc, to_int}

-- `starts_with(s, prefix)`
unfoldable pub starts_with : String → String → Bool
starts_with s [] = true
starts_with [] (p ∷ prefix) = false
starts_with (c ∷ s) (p ∷ prefix) = code c == code p && starts_with s prefix

-- `s + strlen(prefix)`; it is called where `s` starts with the prefix.
unfoldable pub after_prefix : String → String → String
after_prefix s [] = s
after_prefix [] (p ∷ prefix) = []
after_prefix (c ∷ s) (p ∷ prefix) = after_prefix s prefix

-- `isspace` of a character's code
abbrev pub is_space : ℕ → Bool
is_space n = n == b' ' || (leb 9 n && leb n 13)

abbrev pub is_digit : ℕ → Bool
is_digit n = leb b'0' n && leb n b'9'

unfoldable pub skip_space : String → String
skip_space [] = []
skip_space (c ∷ s) = let rest = skip_space s in if is_space (code c) then rest else c ∷ s

-- The number that the leading digits spell behind `n`.
unfoldable pub scan : ℕ → String → ℕ
scan n [] = n
scan n (c ∷ s) =
    let rest = scan (n * 10 + (code c - b'0')) s in if is_digit (code c) then rest else n

-- A magnitude as a `long`, which is 64 bits wide: it stops at `LONG_MAX` and `LONG_MIN`.
abbrev pub positive : ℕ → ℤ
positive n = if ltb n (2 ^ 63) then pos n else pos (2 ^ 63 - 1)

abbrev pub negative : ℕ → ℤ
negative zero = pos 0
negative (suc n) = if ltb n (2 ^ 63) then negsuc n else negsuc (2 ^ 63 - 1)

unfoldable pub signed : String → ℤ
unfolding scan
signed [] = pos 0
signed (c ∷ s) =
    if code c == b'-'
    then negative (scan 0 s)
    else if code c == b'+'
    then positive (scan 0 s)
    else positive (scan 0 (c ∷ s))

-- `strtol(s, NULL, 10)`
unfoldable pub strtol : String → ℤ
unfolding skip_space signed
strtol s = signed (skip_space s)

-- `(int)strtol(s, NULL, 10)`
unfoldable pub int_of_text : String → ℤ
unfolding strtol to_int
int_of_text s = to_int (strtol s)
