-- ===== src/Procrun/Hex/Digits.antt =====
-- A number put over lower bits by `|`.
use Prim.Native.Nat.{max, bit_or, digits, bit_or-bitwise}
use boundary_event_sdk.Prelude.{
  ℕ, zero, suc, ◌+◌, ◌*◌, ◌/◌, ◌%◌, ◌^◌, ◌<◌, ◌≤◌, ◌≡◌, ◌∙◌, ap, refl, some, ◌==◌, false, arith,
}
use boundary_event_sdk.Procrun.Hex.{add_digit, hex_digit, digit_value}
use native.Mathlib.Nat.{div-add-mod}
use native.Mathlib.Numerals.{towards_suc}

pow_suc : (m : ℕ) → 2 ^ suc m ≡ 2 * 2 ^ m
pow_suc m = omega arith

double : (b m : ℕ) → b * 2 ^ suc m ≡ 2 * (b * 2 ^ m)
double b m = omega (arith, ap (λ (t : ℕ). b * t) (pow_suc m))

abbrev or_digits : (n a b : ℕ) → ℕ
or_digits n a b = digits (λ b. b) max n a b

or_digits_over : (n m a b : ℕ) → a ≤ n → a < 2 ^ m → or_digits n a (a + b * 2 ^ m) ≡ a + b * 2 ^ m
or_digits_over zero m a b le lt = refl
or_digits_over (suc n) m zero b le lt = refl
or_digits_over (suc n) zero (suc a) b le lt = absurd (omega arith)
or_digits_over (suc n) (suc m) (suc a) b le lt =
    rw (half, parity, or_digits_over n m (suc a / 2) b (omega arith) (omega (arith, pow_suc m)))
      (omega (arith, double b m))
  where
    half : (suc a + b * 2 ^ suc m) / 2 ≡ suc a / 2 + b * 2 ^ m
    half = omega (arith, double b m)

    parity : (suc a + b * 2 ^ suc m) % 2 ≡ suc a % 2
    parity = omega (arith, double b m)

-- The bits of `b` shifted above those of `a` do not meet them.
bit_or_over : (a b m : ℕ) → a < 2 ^ m → bit_or a (a + b * 2 ^ m) ≡ a + b * 2 ^ m
bit_or_over a b m lt = bit_or-bitwise a (a + b * 2 ^ m) ∙ or_digits_over a m a b (omega arith) lt

pub add_digit_over :
    (rv v sh : ℕ) → rv < 2 ^ sh → rv + v * 2 ^ sh < 2 ^ 32 → add_digit rv v sh ≡ rv + v * 2 ^ sh
unfolding add_digit
add_digit_over rv v sh lt fits = ap (bit_or rv) (omega arith) ∙ bit_or_over rv v sh lt

pub digit_value-hex_digit : (d : ℕ) → d < 16 → digit_value (hex_digit d) ≡ some d
unfolding digit_value hex_digit
digit_value-hex_digit d lt = ground arith

pub hex_digit-not_x : (d : ℕ) → d < 16 → (hex_digit d == b'x') ≡ false
unfolding hex_digit
hex_digit-not_x d lt = ground arith

pow_four : (s : ℕ) → 2 ^ (s + 4) ≡ 16 * 2 ^ s
pow_four s = simp towards_suc (omega arith)

-- The lowest nibble of `n` and the rest, both shifted by `s`.
pub split_nibble : (n s : ℕ) → n * 2 ^ s ≡ n % 16 * 2 ^ s + n / 16 * 2 ^ (s + 4)
split_nibble n s =
    omega
      (arith, ap (λ (t : ℕ). t * 2 ^ s) (div-add-mod n 16), ap (λ (t : ℕ). n / 16 * t) (pow_four s))

-- A nibble above `rv` stays below the next one.
pub nibble_below : (rv v s : ℕ) → rv < 2 ^ s → v < 16 → rv + v * 2 ^ s < 2 ^ (s + 4)
nibble_below rv v s lt hv = grind (arith, pow_four s)
