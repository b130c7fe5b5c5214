-- ===== src/Procrun/Hex/RoundTrip.antt =====
-- What `apxUltohex` stores, `apxStrToul` reads back.
use boundary_event_sdk.Prelude.{
  ℕ, zero, suc, ◌+◌, ◌*◌, ◌/◌, ◌%◌, ◌^◌, ◌<◌, ◌≤◌, ◌≡◌, ◌∙◌, ap, refl, some, [], ◌∷◌, ◌++◌, Bytes,
  length, codes, arith, append-nil,
}
use boundary_event_sdk.Procrun.Hex.{
  hex_digit, hex_loop, ul_to_hex, value_back, backward, read_number, str_to_ul, add_digit,
}
use boundary_event_sdk.Procrun.Hex.Digits.{
  add_digit_over, digit_value-hex_digit, hex_digit-not_x, split_nibble, nibble_below,
}

-- The digits of `n`, the lowest first.
low_first : (k n : ℕ) → Bytes
low_first zero n = []
low_first (suc k) n = hex_digit (n % 16) ∷ low_first k (n / 16)

value_back_step :
    (d rv sh : ℕ) (s : Bytes)
    → d < 16
    → sh < 32
    → value_back (hex_digit d ∷ s) rv sh ≡ value_back s (add_digit rv d sh) (sh + 4)
unfolding value_back
value_back_step d rv sh s lt room =
    rw (hex_digit-not_x d lt, digit_value-hex_digit d lt) (ground arith)

sixteen_pow : (k n : ℕ) → n < 16 ^ suc k → n / 16 < 16 ^ k
sixteen_pow k n h = omega arith

value_back-low_first :
    (k n rv sh : ℕ)
    → rv < 2 ^ sh
    → sh + 4 * k ≤ 32
    → n < 16 ^ k
    → rv + n * 2 ^ sh < 2 ^ 32
    → value_back (low_first k n) rv sh ≡ some (rv + n * 2 ^ sh)
unfolding low_first
value_back-low_first zero n rv sh below room small fits = unfold value_back in ap some (grind arith)
value_back-low_first (suc k) n rv sh below room small fits =
    value_back_step (n % 16) rv sh (low_first k (n / 16)) (omega arith) (omega arith)
    ∙ ap (λ r. value_back (low_first k (n / 16)) r (sh + 4)) put
    ∙ value_back-low_first k (n / 16) (rv + n % 16 * 2 ^ sh) (sh + 4)
        (nibble_below rv (n % 16) sh below (omega arith)) (omega arith) (sixteen_pow k n small)
        (omega (arith, split_nibble n sh))
    ∙ ap some (omega (arith, split_nibble n sh))
  where
    put : add_digit rv (n % 16) sh ≡ rv + n % 16 * 2 ^ sh
    put = add_digit_over rv (n % 16) sh below (omega (arith, split_nibble n sh))

hex_loop-backward :
    (i n : ℕ) (stored : Bytes) → hex_loop i n stored ≡ backward (low_first i n) stored
unfolding hex_loop backward low_first
hex_loop-backward zero n stored = refl
hex_loop-backward (suc i) n stored = hex_loop-backward i (n / 16) (hex_digit (n % 16) ∷ stored)

backward_twice : (s r t : Bytes) → backward (backward s r) t ≡ backward r (s ++ t)
unfolding backward
backward_twice [] r t = refl
backward_twice (c ∷ s) r t = backward_twice s (c ∷ r) t

-- The text of `n`.
abbrev pub hex_text : ℕ → Bytes
hex_text n = codes "0x" ++ hex_loop 8 n []

str_to_ul-hex_text : (n : ℕ) → n < 2 ^ 32 → str_to_ul (hex_text n) ≡ some n
unfolding str_to_ul read_number
str_to_ul-hex_text n h =
    rw (hex_loop-backward 8 n [], backward_twice (low_first 8 n) [] [])
      (rw append-nil (
        value_back-low_first 8 n 0 0 (omega arith) (omega arith) (omega arith) (omega arith)
        ∙ ap some (omega arith)))

-- For a `ULONG` and a buffer length of 10 or more, `apxUltohex` stores a text of ten units and a NUL
-- behind it, eleven units in all, and `apxStrToul` reads the number back from the text.
pub str_to_ul-ul_to_hex :
    (n buff_length : ℕ)
    → n < 2 ^ 32
    → 10 ≤ buff_length
    → (text : Bytes) × (ul_to_hex n buff_length ≡ some (text ++ (0 ∷ [])))
      × (length text ≡ 10)
      × (str_to_ul text ≡ some n)
unfolding ul_to_hex
str_to_ul-ul_to_hex n buff_length h room = (hex_text n, ground arith, refl, str_to_ul-hex_text n h)
