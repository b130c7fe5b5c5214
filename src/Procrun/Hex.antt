-- ===== src/Procrun/Hex.antt =====
-- Numbers in hexadecimal: `apxUltohex` and `apxStrToul` of src/native/windows/src/utils.c, for a `ULONG`
-- of 32 bits.
pub mod Digits
pub mod RoundTrip
pub mod Tests
use Prim.Native.Nat.{bit_or}
use boundary_event_sdk.Prelude.{
  ℕ, zero, suc, ◌+◌, ◌-◌, ◌*◌, ◌/◌, ◌%◌, ◌^◌, ltb, leb, Bool, true, false, ◌&&◌, ◌||◌, Option, none,
  some, [], ◌∷◌, ◌++◌, Bytes, codes, ◌==◌, if◌then◌else◌, ◌>>=◌,
}

-- `XTOABUFFER_SIZE`
abbrev pub buffer_size : ℕ
buffer_size = 10

-- `_st_hex[d]` for a nibble `d`
unfoldable pub hex_digit : ℕ → ℕ
hex_digit d = if ltb d 10 then b'0' + d else b'a' + (d - 10)

-- The loop of `apxUltohex`, `i` digits to go, in front of those that it has stored
unfoldable pub hex_loop : (i n : ℕ) (stored : Bytes) → Bytes
unfolding hex_digit
hex_loop zero n stored = stored
hex_loop (suc i) n stored = hex_loop i (n / 16) (hex_digit (n % 16) ∷ stored)

-- `apxUltohex`: the units that it stores from `lpBuff` on, the NUL included, or `FALSE`. The NUL is at
-- index `XTOABUFFER_SIZE`, one unit behind a buffer of just that length.
unfoldable pub ul_to_hex : (n buff_length : ℕ) → Option Bytes
unfolding hex_loop
ul_to_hex n buff_length =
    if ltb buff_length buffer_size then none else some (codes "0x" ++ hex_loop 8 n (0 ∷ []))

-- The value of a digit, in either case
unfoldable pub digit_value : ℕ → Option ℕ
digit_value c =
    if leb b'0' c && leb c b'9'
    then some (c - b'0')
    else if leb b'a' c && leb c b'f'
    then some (c - b'a' + 10)
    else if leb b'A' c && leb c b'F'
    then some (c - b'A' + 10)
    else none

-- `rv |= rv + (v << sh)`
unfoldable pub add_digit : (rv v sh : ℕ) → ℕ
add_digit rv v sh = bit_or rv ((rv + v * 2 ^ sh % 2 ^ 32) % 2 ^ 32)

-- The loop back to the `x` over the reversed digits. What is no digit gives 0, and a shift by 32 or more
-- is undefined.
unfoldable pub value_back : (reversed : Bytes) (rv sh : ℕ) → Option ℕ
unfolding digit_value add_digit
value_back [] rv sh = some rv
value_back (c ∷ s) rv sh =
    let rest : ℕ → Option ℕ = λ v. value_back s (add_digit rv v sh) (sh + 4) in
    if c == b'x'
    then some rv
    else elim (digit_value c) [ none ↦ some 0 | some v ↦ if ltb sh 32 then rest v else none ]

unfoldable pub backward : Bytes → Bytes → Bytes
backward [] r = r
backward (c ∷ s) r = backward s (c ∷ r)

-- The search for the `x`, which stops as well behind a `0`; `before` is the unit before the rest.
unfoldable pub read_number : (before : ℕ) → Bytes → Option ℕ
unfolding value_back backward
read_number before [] = some 0
read_number before (c ∷ s) =
    let further = read_number c s in
    if c == b'x' then value_back (backward s []) 0 0 else if before == b'0' then some 0 else further

-- `apxStrToul`; of the empty string it reads what is behind the NUL.
unfoldable pub str_to_ul : Bytes → Option ℕ
unfolding read_number
str_to_ul [] = none
str_to_ul (c ∷ s) = read_number c s
