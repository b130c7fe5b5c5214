-- ===== src/Procrun/Handles/Blocks.antt =====
-- The blocks of the pools: `__apxPoolAllocCore`, `__apxPoolReallocCore` and `__apxPoolFreeCore`. A block has
-- a header of `header` bytes, which depends on the platform, as the width of `SIZE_T` does.
pub mod Sizes
use boundary_event_sdk.Prelude.{
  ℕ, ◌+◌, ◌*◌, ◌/◌, ◌%◌, ◌^◌, Bool, true, false, ◌||◌, not, Option, none, some, List, [], ◌∷◌, ◌==◌,
  if◌then◌else◌,
}

-- `APX_ALIGN_DEFAULT` of a `SIZE_T`
unfoldable pub align_default : (width n : ℕ) → ℕ
align_default width n = (((n + 15) % 2 ^ width) / 16) * 16

-- `dwPhysicalSize`, a DWORD
unfoldable pub physical_size : (width header size : ℕ) → ℕ
unfolding align_default
physical_size width header size = align_default width ((size + header) % 2 ^ width) % 2 ^ 32

-- `ALLOCBLOCK`: the size, and the pool, `none` for a block that was freed
pub record Block : Type 0 where
  pub size : ℕ
  pub pool : Option ℕ

-- The blocks by the place of their memory. `none`: there is no block.
abbrev pub Blocks : Type 0
Blocks = ℕ → Option Block

abbrev pub put_block : ℕ → Block → Blocks → Blocks
put_block p b bs q = if p == q then some b else bs q

abbrev pub pool_or_system : (system : ℕ) → Option ℕ → ℕ
pool_or_system system none = system
pool_or_system system (some h) = h

-- `__apxPoolAllocCore`; `place` is where the heap has room.
unfoldable pub alloc_core :
    (width header system place : ℕ) → (h : Option ℕ) (size : ℕ) → Blocks → Option ℕ × Blocks
unfolding physical_size
alloc_core width header system place h size bs = (
  some place,
  put_block place
      (record { size = physical_size width header size; pool = some (pool_or_system system h) }) bs,
)

abbrev pub same_pool : Option ℕ → ℕ → Bool
same_pool none h = false
same_pool (some g) h = g == h

-- `__apxPoolReallocCore`; the outer `none` is a fault, the inner one `NULL`. The heap keeps the block's place
-- or moves it to `place`, and then the old place has no block.
unfoldable pub realloc_core :
    (width header system place : ℕ)
    → (h mem : Option ℕ) (size : ℕ) → Blocks
    → Option (Option ℕ × Blocks)
unfolding alloc_core physical_size
realloc_core width header system place h none size bs =
    some (alloc_core width header system place h size bs)
realloc_core width header system place h (some p) size bs = elim (bs p) [
  | none ↦ none
  | some b ↦
      if not (same_pool (b.pool) (pool_or_system system h))
      then some (none, bs)
      else some (
        some place,
        put_block place
            (record {
              size = physical_size width header size;
              pool = some (pool_or_system system h);
            })
            (λ q. if p == q then none else bs q),
      )
]

-- `__apxPoolFreeCore`: the block is marked, and the heap may give its memory to another.
unfoldable pub free_core : (mem : ℕ) → Blocks → Option Blocks
free_core p bs = elim (bs p) [
  | none ↦ none
  | some b ↦ elim (b.pool) [
    | none ↦ some bs
    | some h ↦ some (put_block p (record b { pool = none }) bs)
  ]
]
