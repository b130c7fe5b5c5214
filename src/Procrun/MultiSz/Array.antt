-- ===== src/Procrun/MultiSz/Array.antt =====
-- Lists of strings and arrays of pointers, in src/native/windows/src/utils.c: `apxMultiSzToArrayW` and
-- `apxArrayToMultiSzA`. An array is the block that the pointers and a copy of the strings share.
use mathlib.Core.Option
use boundary_event_sdk.Prelude.{
  ℕ, zero, suc, ◌+◌, ◌≡◌, refl, ap, false, ◌||◌, ◌>>=◌, Option, none, some, List, [], ◌∷◌, ◌++◌,
  Bytes, length, take, drop, ◌==◌, if◌then◌else◌, arith, append_assoc, length-append,
}
use boundary_event_sdk.Replace.Memory.{NoNul}
use boundary_event_sdk.Procrun.MultiSz.{multi_sz_extent, Extent}
use boundary_event_sdk.Procrun.MultiSz.Items.{spell, AllItems, HoldsItems, HoldsItems-walk}

-- A slot of the table: not written, `NULL`, or the place of a string in the copy.
pub data Slot : Type 0 where
  unset : Slot
  null : Slot
  at_unit : ℕ → Slot

pub record Array : Type 0 where
  pub table : List Slot
  pub copy : Bytes

-- The units up to the first NUL, and `p` behind it
unfoldable pub skip_string : Bytes → Option (ℕ × Bytes)
skip_string [] = none
skip_string (c ∷ s) =
    let rest = skip_string s in
    if c == 0 then some (1, s) else Option.map (λ (r : ℕ × Bytes). (suc (r.0), r.1)) rest

-- The loop over the strings, with `n` to go and `p` units in
unfoldable pub point_at : (n p : ℕ) → Bytes → Option (List Slot)
unfolding skip_string
point_at zero p s = some []
point_at (suc n) p s = do
  (k, rest) ← skip_string s
  slots ← point_at n (p + k) rest
  some (at_unit p ∷ slots)

unfoldable pub to_array : (s : Bytes) → Extent → Option (Option Array)
unfolding point_at
to_array s (l, n) = if (n == 0) || (l == 0) then some none else do
  slots ← point_at n 0 (take (l + 1) s)
  some (some (record { table = slots ++ (unset ∷ null ∷ []); copy = take (l + 1) s }))

-- `apxMultiSzToArrayW`; the outer `none` is a fault, the inner one an answer of 0.
unfoldable pub multi_sz_to_array : Option Bytes → Option (Option Array)
unfolding multi_sz_extent to_array
multi_sz_to_array none = some none
multi_sz_to_array (some s) = do e ← multi_sz_extent (some s); to_array s e

-- The copying loop of `apxArrayToMultiSzA`
unfoldable pub copy_args : List Bytes → Bytes
copy_args [] = []
copy_args (s ∷ args) = s ++ (0 ∷ copy_args args)

-- `apxArrayToMultiSzA`
unfoldable pub array_to_multi_sz : List Bytes → Option Bytes
unfolding copy_args
array_to_multi_sz [] = none
array_to_multi_sz (s ∷ args) = some (copy_args (s ∷ args) ++ (0 ∷ 0 ∷ []))

-- The string that a pointer to the head of this memory reads, up to its NUL
unfoldable pub string_at : Bytes → Bytes
string_at [] = []
string_at (c ∷ s) = let rest = string_at s in if c == 0 then [] else c ∷ rest

-- The strings that the pointers of the table read, up to the first slot that is none
unfoldable pub strings_of : (copy : Bytes) → List Slot → List Bytes
unfolding string_at
strings_of copy [] = []
strings_of copy (unset ∷ slots) = []
strings_of copy (null ∷ slots) = []
strings_of copy (at_unit p ∷ slots) = string_at (drop p copy) ∷ strings_of copy slots

offsets : (p : ℕ) → List Bytes → List Slot
offsets p [] = []
offsets p (s ∷ items) = at_unit p ∷ offsets (p + suc (length s)) items

skip_string-item :
    (s rest : Bytes) → NoNul s → skip_string (s ++ (0 ∷ rest)) ≡ some (suc (length s), rest)
unfolding skip_string
skip_string-item [] rest h = refl
skip_string-item (c ∷ s) rest h = ground (arith, skip_string-item s rest h.1)

string_at-item : (s rest : Bytes) → NoNul s → string_at (s ++ (0 ∷ rest)) ≡ s
unfolding string_at
string_at-item [] rest h = refl
string_at-item (c ∷ s) rest h = ground (arith, string_at-item s rest h.1)

drop-append : (a b : Bytes) → drop (length a) (a ++ b) ≡ b
drop-append [] b = refl
drop-append (c ∷ a) b = drop-append a b

point_at-spell :
    (items : List Bytes) (p : ℕ) (rest : Bytes)
    → AllItems items
    → point_at (length items) p (spell items ++ rest) ≡ some (offsets p items)
unfolding point_at offsets
point_at-spell [] p rest h = refl
point_at-spell (s ∷ items) p rest h =
    rw
      (
        append_assoc,
        skip_string-item s (spell items ++ rest) h.0.1,
        point_at-spell items (p + suc (length s)) rest h.1,
      )
      refl

strings_of-offsets :
    (before rest : Bytes) (items : List Bytes)
    → AllItems items
    → strings_of
        (before ++ (spell items ++ rest))
        (offsets (length before) items ++ (unset ∷ null ∷ []))
      ≡ items
unfolding strings_of offsets
strings_of-offsets before rest [] h = refl
strings_of-offsets before rest (s ∷ items) h =
    let tail = strings_of-offsets (before ++ (s ++ (0 ∷ []))) rest items h.1 in
    let whole : (before ++ (s ++ (0 ∷ []))) ++ (spell items ++ rest)
        ≡ before ++ (spell (s ∷ items) ++ rest) =
      simp append_assoc in
    let place : length (before ++ (s ++ (0 ∷ []))) ≡ length before + suc (length s) =
      rw (length-append, length-append) (omega arith) in
    let others = rw (whole, place) at tail in
    rw (drop-append, append_assoc, string_at-item s (spell items ++ rest) h.0.1)
      (ap (λ l. s ∷ l) others)

copy_args-spell : (args : List Bytes) → copy_args args ≡ spell args
unfolding copy_args
copy_args-spell [] = refl
copy_args-spell (s ∷ args) = rw (copy_args-spell args)

-- What an array that is read back holds: its strings, and the slot that is left out.
abbrev pub IsArrayOf : List Bytes → Array → Type 0
IsArrayOf items a =
    (strings_of (a.copy) (a.table) ≡ items)
    × ((slots : List Slot) × (length slots ≡ length items)
        × (a.table ≡ slots ++ (unset ∷ null ∷ [])))

take-block : (a rest : Bytes) → take (length a + 1) (a ++ (0 ∷ rest)) ≡ a ++ (0 ∷ [])
take-block [] rest = refl
take-block (c ∷ a) rest =
    let tail = take-block a rest in
    let counted : suc (length a) + 1 ≡ suc (length a + 1) = omega arith in
    rw counted (ap (λ l. c ∷ l) tail)

length-offsets : (p : ℕ) (items : List Bytes) → length (offsets p items) ≡ length items
unfolding offsets
length-offsets p [] = refl
length-offsets p (s ∷ items) = rw (length-offsets (p + suc (length s)) items)

spell-occupied :
    (s : Bytes) (items : List Bytes)
    → ((length (s ∷ items) == 0) || (length (spell (s ∷ items)) == 0)) ≡ false
spell-occupied s items = rw (length-append) (ground arith)

to_array-IsArrayOf :
    (s : Bytes) (items : List Bytes) (rest : Bytes)
    → AllItems (s ∷ items)
    → (a : Array) × (to_array
          (spell (s ∷ items) ++ (0 ∷ rest))
          (length (spell (s ∷ items)), length (s ∷ items))
        ≡ some (some a))
      × IsArrayOf (s ∷ items) a
unfolding to_array
to_array-IsArrayOf s items rest h =
    let all : List Bytes = s ∷ items in
    (
      record { table = offsets 0 all ++ (unset ∷ null ∷ []); copy = spell all ++ (0 ∷ []) },
      rw (spell-occupied s items, take-block (spell all) rest, point_at-spell all 0 (0 ∷ []) h)
          refl,
      (strings_of-offsets [] (0 ∷ []) all h, (offsets 0 all, length-offsets 0 all, refl)),
    )

-- Of a block of wide strings, one or more and each with its NUL, and a NUL behind the last, `apxMultiSzToArrayW`
-- makes pointers to the strings in their order; the slot behind the last pointer is left unset, and the `NULL`
-- stands in the slot after it.
pub multi_sz_to_array-IsArrayOf :
    (block s : Bytes) (items : List Bytes)
    → HoldsItems block (s ∷ items)
    → (a : Array) × (multi_sz_to_array (some block) ≡ some (some a)) × IsArrayOf (s ∷ items) a
unfolding multi_sz_to_array multi_sz_extent
multi_sz_to_array-IsArrayOf block s items h =
    let made = to_array-IsArrayOf s items h.1.0 h.0 in
    (made.0, rw (HoldsItems-walk block (s ∷ items) h, h.1.1) made.1, made.2)

-- The block of bytes that `apxArrayToMultiSzA` makes holds the strings.
pub array_to_multi_sz-HoldsItems :
    (s : Bytes) (args : List Bytes)
    → AllItems (s ∷ args)
    → (block : Bytes) × (array_to_multi_sz (s ∷ args) ≡ some block) × HoldsItems block (s ∷ args)
unfolding array_to_multi_sz
array_to_multi_sz-HoldsItems s args h =
    (spell (s ∷ args) ++ (0 ∷ 0 ∷ []), rw (copy_args-spell (s ∷ args)) refl, (h, (0 ∷ [], refl)))
