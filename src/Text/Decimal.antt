-- ===== src/Text/Decimal.antt =====
-- Numbers printed by `printf("%d")` and read by `atoi`.
use boundary_event_sdk.Prelude.{
  ℕ, zero, suc, ◌+◌, ◌*◌, ◌/◌, ◌%◌, ◌^◌, ◌≤◌, ◌<◌, ◌≡◌, ◌∙◌, refl, true, false, [], ◌∷◌, ◌++◌,
  Bytes, length, length-append, inl, inr, ltb, leb, pos, arith, append_assoc, Bool-cases, ltb→lt,
}
use boundary_event_sdk.Text.{
  read_digits, long_max, clamp_pos, read_signed, skip_spaces, strtol, from_bits, to_int, atoi,
  print_fuel, decimal,
}

-- The first byte is no digit.
abbrev pub EndsDigits : Bytes → Type 0
EndsDigits [] = Unit {0}
EndsDigits (c ∷ s) = (leb 48 c ≡ false)

read_digits-ends : (acc : ℕ) (s : Bytes) → EndsDigits s → read_digits 10 acc s ≡ acc
unfolding read_digits
read_digits-ends acc [] h = refl
read_digits-ends acc (c ∷ s) h = ground arith

read_digits-digit :
    (acc d : ℕ) (s : Bytes)
    → d < 10
    → read_digits 10 acc ((48 + d) ∷ s) ≡ read_digits 10 (acc * 10 + d) s
unfolding read_digits
read_digits-digit acc d s h = ground arith

print_fuel-digit : (fuel n : ℕ) → ltb n 10 ≡ true → print_fuel (suc fuel) n ≡ (48 + n) ∷ []
unfolding print_fuel
print_fuel-digit fuel n h = ground arith

-- The digits of the tenth, and the last digit.
print_fuel-last :
    (fuel n : ℕ)
    → ltb n 10 ≡ false
    → print_fuel (suc fuel) n ≡ print_fuel fuel (n / 10) ++ (48 + n % 10) ∷ []
unfolding print_fuel
print_fuel-last fuel n h = ground arith

read_digits-print :
    (fuel n : ℕ) (s : Bytes)
    → n < fuel
    → read_digits 10 0 (print_fuel fuel n ++ s) ≡ read_digits 10 n s
read_digits-print zero n s h = omega arith
read_digits-print (suc fuel) n s h = elim (Bool-cases (ltb n 10)) [
  | inl small ↦
      let plain : 0 * 10 + n ≡ n = omega arith in
      rw (print_fuel-digit fuel n small, read_digits-digit 0 n s (ltb→lt n 10 small), plain) refl
  | inr large ↦
      let whole : (n / 10) * 10 + n % 10 ≡ n = omega arith in
      rw
        (
          print_fuel-last fuel n large,
          append_assoc (print_fuel fuel (n / 10)) ((48 + n % 10) ∷ []) s,
          read_digits-print fuel (n / 10) ((48 + n % 10) ∷ s) (ground arith),
          read_digits-digit (n / 10) (n % 10) s (omega arith),
          whole,
        )
        refl
]

-- The first byte is a digit.
print_fuel-head :
    (fuel n : ℕ)
    → n < fuel
    → (c : ℕ) × (s : Bytes) × (print_fuel fuel n ≡ c ∷ s) × (48 ≤ c) × (c < 58)
print_fuel-head zero n h = (0, [], ground arith, omega arith, omega arith)
print_fuel-head (suc fuel) n h = elim (Bool-cases (ltb n 10)) [
  | inl small ↦ (48 + n, [], print_fuel-digit fuel n small, omega arith, ground arith)
  | inr large ↦
      let (c, s, e, low, high) = print_fuel-head fuel (n / 10) (ground arith) in
      (c, s ++ (48 + n % 10) ∷ [], print_fuel-last fuel n large ∙ rw e refl, low, high)
]

strtol-digit :
    (c : ℕ) (s : Bytes) → 48 ≤ c → c < 58 → strtol 10 (c ∷ s) ≡ clamp_pos (read_digits 10 0 (c ∷ s))
unfolding strtol skip_spaces read_signed
strtol-digit c s low high = ground arith

to_int-small : (n : ℕ) → n < 2 ^ 31 → to_int (clamp_pos n) ≡ pos n
unfolding to_int clamp_pos long_max from_bits
to_int-small n h = ground arith

-- `atoi` reads back what `%d` wrote, whatever follows it, if that is no digit.
pub atoi-decimal : (n : ℕ) (s : Bytes) → n < 2 ^ 31 → EndsDigits s → atoi (decimal n ++ s) ≡ pos n
unfolding atoi decimal
atoi-decimal n s h ends =
    let (c, t, e, low, high) = print_fuel-head (suc n) n (omega arith) in
    let reads : read_digits 10 0 (c ∷ (t ++ s)) ≡ n =
      rw e at (read_digits-print (suc n) n s (omega arith)) ∙ read_digits-ends n s ends in
    rw (e, strtol-digit c (t ++ s) low high, reads, to_int-small n h) refl

print_fuel-length : (d fuel n : ℕ) → n < 10 ^ suc d → length (print_fuel fuel n) ≤ suc d
unfolding print_fuel
print_fuel-length d zero n h = omega arith
print_fuel-length zero (suc fuel) n h = ground arith
print_fuel-length (suc d) (suc fuel) n h = ground (
  arith,
  length-append (print_fuel fuel (n / 10)) ((48 + n % 10) ∷ []),
  print_fuel-length d fuel (n / 10) (omega arith),
)

-- A number below 2³¹ has at most ten digits.
pub decimal-length : (n : ℕ) → n < 2 ^ 31 → length (decimal n) ≤ 10
unfolding decimal
decimal-length n h = print_fuel-length 9 (suc n) n (omega arith)

pub decimal-head : (n : ℕ) → (c : ℕ) × (s : Bytes) × (decimal n ≡ c ∷ s)
unfolding decimal
decimal-head n = let (c, s, e, low, high) = print_fuel-head (suc n) n (omega arith) in (c, s, e)
