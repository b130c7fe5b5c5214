-- ===== src/Procrun/MultiSz/Tests.antt =====
-- Lists of strings on small inputs.
use boundary_event_sdk.Prelude.{◌≡◌, refl, some, [], ◌∷◌, ◌++◌, Bytes, codes, arith}
use boundary_event_sdk.Procrun.MultiSz.{multi_sz_extent, walk, msz_to_crlf, to_crlf}
use boundary_event_sdk.Procrun.MultiSz.Items.{spell, HoldsItems, cons-IsItem}
use boundary_event_sdk.Procrun.MultiSz.Array.{
  Array, IsArrayOf, multi_sz_to_array, multi_sz_to_array-IsArrayOf,
}

abbrev two_strings : Bytes
two_strings = spell (codes "ab" ∷ codes "c" ∷ []) ++ (0 ∷ [])

two_strings-HoldsItems : HoldsItems two_strings (codes "ab" ∷ codes "c" ∷ [])
two_strings-HoldsItems =
    ((cons-IsItem _ _ (omega arith), (cons-IsItem _ _ (omega arith), tt)), ([], refl))

extent_of_two : multi_sz_extent (some two_strings) ≡ some (5, 2)
unfolding multi_sz_extent walk
extent_of_two = refl

two_lines : msz_to_crlf two_strings ≡ some (codes "ab\r\nc\r\n")
unfolding msz_to_crlf multi_sz_extent walk to_crlf
two_lines = refl

multi_sz_to_array-IsArrayOf_example :
    (a : Array) × (multi_sz_to_array (some two_strings) ≡ some (some a))
    × IsArrayOf (codes "ab" ∷ codes "c" ∷ []) a
multi_sz_to_array-IsArrayOf_example =
    multi_sz_to_array-IsArrayOf two_strings (codes "ab") (codes "c" ∷ []) two_strings-HoldsItems
