-- ===== src/Procrun/MultiSz/Items.antt =====
-- A `MULTI_SZ` as the list of its strings.
use native.Mathlib.Nat.{zero-add}
use boundary_event_sdk.Prelude.{
  ℕ, suc, ◌+◌, ◌≡◌, ◌≢◌, refl, true, false, none, some, List, [], ◌∷◌, ◌++◌, Bytes, length, take,
  arith, append_assoc, length-append,
}
use boundary_event_sdk.Replace.Memory.{NoNul}
use boundary_event_sdk.Procrun.MultiSz.{
  walk, multi_sz_extent, contents, multi_sz_combine, join_extents, Block,
}

-- The strings with their NULs.
abbrev pub spell : List Bytes → Bytes
spell [] = []
spell (s ∷ items) = s ++ (0 ∷ spell items)

-- A string of a `MULTI_SZ` is not empty and holds no NUL.
abbrev pub IsItem : Bytes → Type 0
IsItem s = (s ≢ []) × NoNul s

abbrev pub AllItems : List Bytes → Type 0
AllItems [] = Unit {0}
AllItems (s ∷ items) = IsItem s × AllItems items

pub spell-append : (a b : List Bytes) → spell (a ++ b) ≡ spell a ++ spell b
spell-append [] b = refl
spell-append (s ∷ a) b = simp (spell-append a b, append_assoc)

pub AllItems-append : (a b : List Bytes) → AllItems a → AllItems b → AllItems (a ++ b)
AllItems-append [] b h g = g
AllItems-append (s ∷ a) b (h, hs) g = (h, AllItems-append a b hs g)

pub take-append : (a b : Bytes) → take (length a) (a ++ b) ≡ a
take-append [] b = refl
take-append (x ∷ a) b = rw (take-append a b)

within-append :
    (s rest : Bytes) (n c : ℕ)
    → NoNul s
    → walk false rest ≡ some (n, c)
    → walk true (s ++ (0 ∷ rest)) ≡ some (length s + suc n, c)
unfolding walk
within-append [] rest n c h e = ground (arith, e)
within-append (x ∷ s) rest n c h e = ground (arith, within-append s rest n c h.1 e)

start-append :
    (s rest : Bytes) (n c : ℕ)
    → IsItem s
    → walk false rest ≡ some (n, c)
    → walk false (s ++ (0 ∷ rest)) ≡ some (length s + suc n, suc c)
unfolding walk
start-append [] rest n c h e = absurd (h.0 refl)
start-append (x ∷ s) rest n c h e = ground (arith, within-append s rest n c h.1.1 e)

-- `__apxGetMultiSzLengthW` finds the strings up to the empty one, and whatever is behind it is not read.
walk-spell :
    (items : List Bytes) (rest : Bytes)
    → AllItems items
    → walk false (spell items ++ (0 ∷ rest)) ≡ some (length (spell items), length items)
walk-spell [] rest h = unfold walk in ground arith
walk-spell (s ∷ items) rest h =
    rw (append_assoc, length-append)
      (start-append s (spell items ++ (0 ∷ rest)) _ _ h.0 (walk-spell items rest h.1))

-- A block that holds the strings `items`, as a pointer to it reads.
abbrev pub HoldsItems : Bytes → List Bytes → Type 0
HoldsItems s items = AllItems items × ((rest : Bytes) × (s ≡ spell items ++ (0 ∷ rest)))

pub HoldsItems-walk :
    (s : Bytes) (items : List Bytes)
    → HoldsItems s items
    → walk false s ≡ some (length (spell items), length items)
HoldsItems-walk s items (h, (rest, e)) = rw e (walk-spell items rest h)

pub HoldsItems-take :
    (s : Bytes) (items : List Bytes)
    → HoldsItems s items
    → take (length (spell items)) s ≡ spell items
HoldsItems-take s items (h, (rest, e)) = rw e (take-append (spell items) (0 ∷ rest))

-- The block that holds just the strings.
abbrev pub tight : List Bytes → Block
tight items = record { memory = spell items ++ (0 ∷ []); size = length (spell items) + 1 }

pub tight-HoldsItems :
    (items : List Bytes) → AllItems items → HoldsItems (spell items ++ (0 ∷ [])) items
tight-HoldsItems items h = (h, ([], refl))

join_extents-tight :
    (a b : Bytes) (xs ys : List Bytes) (m n : ℕ)
    → HoldsItems a xs
    → HoldsItems b ys
    → join_extents a b (length (spell xs), m) (length (spell ys), n) ≡ tight (xs ++ ys)
unfolding join_extents
join_extents-tight a b xs ys m n h g =
    rw (HoldsItems-take a xs h, HoldsItems-take b ys g, spell-append, append_assoc, length-append)
      refl

-- `apxMultiSzCombine` of two lists is the list of the strings of both.
pub multi_sz_combine-append :
    (a b : Bytes) (xs ys : List Bytes)
    → HoldsItems a xs
    → HoldsItems b ys
    → multi_sz_combine (some a) (some b) ≡ some (some (tight (xs ++ ys)))
unfolding multi_sz_combine multi_sz_extent contents
multi_sz_combine-append a b xs ys h g =
    rw (HoldsItems-walk a xs h, HoldsItems-walk b ys g, join_extents-tight a b xs ys _ _ h g) refl

-- With `NULL` for the first, it is the list of the second.
pub multi_sz_combine_null :
    (b : Bytes) (ys : List Bytes)
    → HoldsItems b ys
    → multi_sz_combine none (some b) ≡ some (some (tight ys))
unfolding multi_sz_combine multi_sz_extent contents join_extents
multi_sz_combine_null b ys g = rw (HoldsItems-walk b ys g, HoldsItems-take b ys g, zero-add) refl

pub cons-IsItem : (c : ℕ) (s : Bytes) → NoNul (c ∷ s) → IsItem (c ∷ s)
cons-IsItem c s h = (λ e. cc, h)
