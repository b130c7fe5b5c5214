-- ===== src/Procrun/MultiSz.antt =====
-- The lists of strings of src/native/windows/src/utils.c: a `MULTI_SZ` is the memory from a pointer on,
-- its strings each followed by a NUL, and a NUL behind the last. Memory that ends before what the code
-- reads is a fault, `none`. Allocations of the pool succeed.
pub mod Items
pub mod Crlf
pub mod Array
pub mod Tests
use mathlib.Core.Option
use boundary_event_sdk.Prelude.{
  ℕ, zero, suc, ◌+◌, ◌-◌, Bool, true, false, ◌>>=◌, Option, none, some, List, [], ◌∷◌, ◌++◌, Bytes,
  length, take, ◌==◌, if◌then◌else◌,
}

abbrev pub zeros : ℕ → Bytes
zeros zero = []
zeros (suc n) = 0 ∷ zeros n

abbrev pub cr : ℕ
cr = 13

abbrev pub lf : ℕ
lf = 10

-- What `__apxGetMultiSzLengthW` returns, in units of two bytes, and the number of strings it counts.
abbrev pub Extent : Type 0
Extent = ℕ × ℕ

abbrev pub one_more : Extent → Extent
one_more (n, c) = (suc n, c)

abbrev pub one_item : Extent → Extent
one_item (n, c) = (n, suc c)

-- The loop of `__apxGetMultiSzLengthW`, within a string or at the start of one
unfoldable pub walk : (within : Bool) → Bytes → Option Extent
walk within [] = none
walk false (c ∷ s) =
    let rest = walk true s in
    if c == 0 then some (0, 0) else Option.map one_item (Option.map one_more rest)
walk true (c ∷ s) =
    let next = walk false s in
    let rest = walk true s in if c == 0 then Option.map one_more next else Option.map one_more rest

unfoldable pub multi_sz_extent : Option Bytes → Option Extent
unfolding walk
multi_sz_extent none = some (0, 0)
multi_sz_extent (some s) = walk false s

-- The block that `apxMultiSzCombine` returns, and `*lpdwLength` in units of two bytes.
pub record Block : Type 0 where
  pub memory : Bytes
  pub size : ℕ

unfoldable pub contents : Option Bytes → Bytes
contents none = []
contents (some s) = s

unfoldable pub join_extents : (a b : Bytes) → Extent → Extent → Block
join_extents a b (la, _) (lb, _) = record {
  memory = take la a ++ (take lb b ++ zeros 1);
  size = la + lb + 1;
}

-- `apxMultiSzCombine`; the outer `none` is a fault, the inner one is `NULL`.
unfoldable pub multi_sz_combine : (a b : Option Bytes) → Option (Option Block)
unfolding multi_sz_extent contents join_extents
multi_sz_combine none none = some none
multi_sz_combine a b = do
  la ← multi_sz_extent a
  lb ← multi_sz_extent b
  some (some (join_extents (contents a) (contents b) la lb))

-- The loop of `apxMszToCRLFW`, with `c` strings to go
unfoldable pub to_crlf : (c : ℕ) → Bytes → Option Bytes
to_crlf zero p = some []
to_crlf (suc c) [] = none
to_crlf (suc c) (x ∷ p) =
    let next = to_crlf c p in
    let rest = to_crlf (suc c) p in
    if x == 0 then Option.map (λ b. cr ∷ lf ∷ b) next else Option.map (λ b. x ∷ b) rest

-- `apxMszToCRLFW`: the string that it writes into the zeroed block
unfoldable pub msz_to_crlf : Bytes → Option Bytes
unfolding multi_sz_extent to_crlf
msz_to_crlf s = do (_, c) ← multi_sz_extent (some s); to_crlf c s

-- The units that the loop of `apxCRLFToMszW` writes.
unfoldable pub from_crlf : Bytes → Bytes
from_crlf [] = []
from_crlf (x ∷ s) =
    let rest = from_crlf s in if x == cr then 0 ∷ rest else if x == lf then rest else x ∷ rest

-- `apxCRLFToMszW`: the block of `l + 2` units, and the units that `*lpdwBytes` counts
unfoldable pub crlf_to_msz : Bytes → Block
unfolding from_crlf
crlf_to_msz s =
    let written = from_crlf s in
    record { memory = written ++ zeros (length s + 2 - length written); size = length written + 2 }
