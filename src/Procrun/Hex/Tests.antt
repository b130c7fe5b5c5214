-- ===== src/Procrun/Hex/Tests.antt =====
-- Hexadecimal texts on small inputs.
use boundary_event_sdk.Prelude.{◌≡◌, refl, some, [], ◌∷◌, ◌++◌, codes}
use boundary_event_sdk.Procrun.Hex.{
  ul_to_hex, hex_loop, hex_digit, str_to_ul, read_number, value_back, backward, digit_value,
  add_digit,
}

beef : ul_to_hex 48879 10 ≡ some (codes "0x0000beef" ++ (0 ∷ []))
unfolding ul_to_hex hex_loop hex_digit
beef = refl

-- What follows the last `x` counts, in either case of the digits.
reads : (str_to_ul (codes "0xBEef") ≡ some 48879) × (str_to_ul (codes "0x1x2") ≡ some 2)
unfolding str_to_ul read_number value_back backward digit_value add_digit
reads = (refl, refl)
