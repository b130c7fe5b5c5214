-- ===== src/Text.antt =====
-- The functions of <string.h> and <stdlib.h> that the programs call, over C strings. A `long` has 64
-- bits and an `int` has 32; `atoi` is the low half of what `strtol` reads, as in the C library of the
-- systems that jsvc is built for.
pub mod Decimal
use mathlib.Core.Option
use boundary_event_sdk.Prelude.{
  ℕ, zero, suc, ◌+◌, ◌-◌, ◌*◌, ◌/◌, ◌++◌, ◌%◌, ◌^◌, Bool, ◌&&◌, ◌||◌, Option, none, some, [], ◌∷◌,
  Bytes, ◌==◌, ltb, leb, if◌then◌else◌, starts_with, ℤ, pos, negsuc,
}

-- `strstr(s, m)`, as an offset into `s`
unfoldable pub strstr : (s m : Bytes) → Option ℕ
strstr [] m = if starts_with m [] then some 0 else none
strstr (c ∷ s) m = if starts_with m (c ∷ s) then some 0 else Option.map suc (strstr s m)

-- `strchr(s, c)`, as an offset into `s`
unfoldable pub strchr : Bytes → ℕ → Option ℕ
strchr [] c = none
strchr (d ∷ s) c = if d == c then some 0 else Option.map suc (strchr s c)

-- `strrchr(s, c)`, as an offset into `s`
unfoldable pub strrchr : Bytes → ℕ → Option ℕ
strrchr [] c = none
strrchr (d ∷ s) c = elim (strrchr s c) [
  | some k ↦ some (suc k)
  | none ↦ if d == c then some 0 else none
]

abbrev pub is_space : ℕ → Bool
is_space c = c == b' ' || leb 9 c && leb c 13

unfoldable pub skip_spaces : Bytes → Bytes
skip_spaces [] = []
skip_spaces (c ∷ s) = let rest = skip_spaces s in if is_space c then rest else c ∷ s

-- The number that the leading digits below `base` make.
unfoldable pub read_digits : (base acc : ℕ) → Bytes → ℕ
read_digits base acc [] = acc
read_digits base acc (c ∷ s) =
    let rest = read_digits base (acc * base + (c - 48)) s in
    if leb 48 c && ltb c (48 + base) then rest else acc

unfoldable pub long_max : ℕ
long_max = 2 ^ 63 - 1

-- `strtol` stays within `LONG_MIN` and `LONG_MAX`.
unfoldable pub clamp_pos : ℕ → ℤ
unfolding long_max
clamp_pos n = if leb n long_max then pos n else pos long_max

unfoldable pub clamp_neg : ℕ → ℤ
unfolding long_max
clamp_neg zero = pos 0
clamp_neg (suc n) = if leb n long_max then negsuc n else negsuc long_max

unfoldable pub read_signed : (base : ℕ) → Bytes → ℤ
unfolding clamp_pos clamp_neg read_digits
read_signed base [] = pos 0
read_signed base (c ∷ s) =
    if c == b'-'
    then clamp_neg (read_digits base 0 s)
    else if c == b'+'
    then clamp_pos (read_digits base 0 s)
    else clamp_pos (read_digits base 0 (c ∷ s))

-- `strtol(s, NULL, base)` for a base up to 10 other than 0
unfoldable pub strtol : (base : ℕ) → Bytes → ℤ
unfolding read_signed skip_spaces
strtol base s = read_signed base (skip_spaces s)

-- The `int` with the 32-bit pattern `w`.
unfoldable pub from_bits : ℕ → ℤ
from_bits w = if ltb w (2 ^ 31) then pos w else negsuc (2 ^ 32 - 1 - w)

-- `(int)n` for a `long` n
unfoldable pub to_int : ℤ → ℤ
unfolding from_bits
to_int (pos n) = from_bits (n % 2 ^ 32)
to_int (negsuc n) = from_bits (2 ^ 32 - 1 - n % 2 ^ 32)

unfoldable pub atoi : Bytes → ℤ
unfolding to_int strtol
atoi s = to_int (strtol 10 s)

-- `%d` of a number that is not negative: with the fuel `suc n`, which a tenth of `n` never exhausts.
unfoldable pub print_fuel : ℕ → ℕ → Bytes
print_fuel zero n = []
print_fuel (suc fuel) n =
    let above = print_fuel fuel (n / 10) in
    if ltb n 10 then (48 + n) ∷ [] else above ++ (48 + n % 10) ∷ []

unfoldable pub decimal : ℕ → Bytes
unfolding print_fuel
decimal n = print_fuel (suc n) n
