-- ===== src/Procrun/MultiSz/Crlf.antt =====
-- Lists of strings as lines of text and back, as the manager's text boxes show and read them.
use boundary_event_sdk.Prelude.{
  ℕ, zero, suc, ◌+◌, ◌-◌, ◌≤◌, ◌≡◌, ◌≢◌, refl, ◌∙◌, ap, some, List, [], ◌∷◌, ◌++◌, Bytes, length,
  arith, append_assoc, length-append,
}
use boundary_event_sdk.Procrun.MultiSz.{
  cr, lf, zeros, multi_sz_extent, to_crlf, msz_to_crlf, from_crlf, crlf_to_msz,
}
use boundary_event_sdk.Procrun.MultiSz.Items.{spell, AllItems, HoldsItems, HoldsItems-walk}

-- No unit ends a line or a string.
abbrev pub IsLine : Bytes → Type 0
IsLine [] = Unit {0}
IsLine (c ∷ s) = (c ≢ 0) × (c ≢ cr) × (c ≢ lf) × IsLine s

abbrev pub AllLines : List Bytes → Type 0
AllLines [] = Unit {0}
AllLines (s ∷ items) = IsLine s × AllLines items

-- The strings, each followed by a line end.
abbrev pub lines : List Bytes → Bytes
lines [] = []
lines (s ∷ items) = s ++ (cr ∷ lf ∷ lines items)

to_crlf-line :
    (s rest : Bytes) (c : ℕ) (text : Bytes)
    → IsLine s
    → to_crlf c rest ≡ some text
    → to_crlf (suc c) (s ++ (0 ∷ rest)) ≡ some (s ++ (cr ∷ lf ∷ text))
unfolding to_crlf
to_crlf-line [] rest c text h e = ground (arith, e)
to_crlf-line (x ∷ s) rest c text h e = ground (arith, to_crlf-line s rest c text h.3 e)

to_crlf-lines :
    (items : List Bytes) (rest : Bytes)
    → AllLines items
    → to_crlf (length items) (spell items ++ rest) ≡ some (lines items)
to_crlf-lines [] rest h = unfold to_crlf in refl
to_crlf-lines (s ∷ items) rest h =
    rw append_assoc (to_crlf-line s (spell items ++ rest) _ _ h.0 (to_crlf-lines items rest h.1))

from_crlf-line :
    (s rest : Bytes) → IsLine s → from_crlf (s ++ (cr ∷ lf ∷ rest)) ≡ s ++ (0 ∷ from_crlf rest)
unfolding from_crlf
from_crlf-line [] rest h = ground arith
from_crlf-line (x ∷ s) rest h = ground (arith, from_crlf-line s rest h.3)

from_crlf-lines : (items : List Bytes) → AllLines items → from_crlf (lines items) ≡ spell items
from_crlf-lines [] h = unfold from_crlf in refl
from_crlf-lines (s ∷ items) h =
    from_crlf-line s (lines items) h.0 ∙ ap (λ t. s ++ (0 ∷ t)) (from_crlf-lines items h.1)

lines_longer : (items : List Bytes) → length (spell items) ≤ length (lines items)
lines_longer [] = omega arith
lines_longer (s ∷ items) = omega (
  arith,
  length-append s (0 ∷ spell items),
  length-append s (cr ∷ lf ∷ lines items),
  lines_longer items,
)

zeros-suc : (m n : ℕ) → m ≤ n → zeros (n + 2 - m) ≡ 0 ∷ zeros (n + 1 - m)
zeros-suc m n le = let e : n + 2 - m ≡ suc (n + 1 - m) = omega arith in ap zeros e

length-zeros : (n : ℕ) → length (zeros n) ≡ n
length-zeros zero = refl
length-zeros (suc n) = ap suc (length-zeros n)

msz_to_crlf-lines :
    (s : Bytes) (items : List Bytes)
    → HoldsItems s items
    → AllLines items
    → msz_to_crlf s ≡ some (lines items)
unfolding msz_to_crlf multi_sz_extent
msz_to_crlf-lines s items (h, (rest, e)) ls =
    rw (HoldsItems-walk s items (h, (rest, e)), e) (to_crlf-lines items (0 ∷ rest) ls)

crlf_to_msz-HoldsItems :
    (items : List Bytes)
    → AllItems items
    → AllLines items
    → HoldsItems (crlf_to_msz (lines items)).memory items
      × ((crlf_to_msz (lines items)).size ≤ length (crlf_to_msz (lines items)).memory)
unfolding crlf_to_msz
crlf_to_msz-HoldsItems items h ls = rw (from_crlf-lines items ls) (
  (h, (_, ap (λ t. spell items ++ t) (zeros-suc _ _ (lines_longer items)))),
  omega (
    arith,
    lines_longer items,
    length-append (spell items) (zeros (length (lines items) + 2 - length (spell items))),
    length-zeros (length (lines items) + 2 - length (spell items)),
  ),
)

-- Turning a list of strings into lines and back gives a block that holds the same strings, and the
-- number of units reported for it is within the block. The strings hold no CR and no LF.
pub crlf_to_msz-msz_to_crlf :
    (s : Bytes) (items : List Bytes)
    → HoldsItems s items
    → AllLines items
    → (text : Bytes) × (msz_to_crlf s ≡ some text)
      × HoldsItems (crlf_to_msz text).memory items
      × ((crlf_to_msz text).size ≤ length (crlf_to_msz text).memory)
crlf_to_msz-msz_to_crlf s items h ls =
    let (held, fits) = crlf_to_msz-HoldsItems items h.0 ls in
    (lines items, msz_to_crlf-lines s items h ls, held, fits)
