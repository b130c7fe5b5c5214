-- ===== src/Procrun/Quotes.antt =====
-- The units that are taken out of a string, or replaced in it, in src/native/windows/src/utils.c. A string
-- is the list of its units before the NUL, changed in place.
pub mod Kept
pub mod Tests
use boundary_event_sdk.Prelude.{ℕ, suc, Bool, true, false, [], ◌∷◌, Bytes, ◌==◌, if◌then◌else◌}

-- The string that is left, and the number of units taken out
unfoldable pub char_remove : Bytes → (skip : ℕ) → Bytes × ℕ
char_remove [] skip = ([], 0)
char_remove (c ∷ s) skip =
    let rest = char_remove s skip in
    if c == skip then (rest.0, suc (rest.1)) else (c ∷ rest.0, rest.1)

unfoldable pub char_replace : Bytes → (replace with_unit : ℕ) → Bytes
char_replace [] replace with_unit = []
char_replace (c ∷ s) replace with_unit =
    let rest = char_replace s replace with_unit in
    if c == replace then with_unit ∷ rest else c ∷ rest

-- The search of `apxStrUnQuoteInplaceW` for a space between the first two quotes
unfoldable pub needs_quote : (in_quote : Bool) → Bytes → Bool
needs_quote in_quote [] = false
needs_quote false (c ∷ s) =
    let opened = needs_quote true s in
    let rest = needs_quote false s in if c == b'"' then opened else rest
needs_quote true (c ∷ s) =
    let rest = needs_quote true s in if c == b'"' then false else if c == b' ' then true else rest

-- `apxStrUnQuoteInplaceW`: the string, and what is returned
unfoldable pub un_quote_inplace : Bytes → Bytes × ℕ
unfolding needs_quote char_remove
un_quote_inplace s = if needs_quote false s then (s, 0) else char_remove s b'"'
