-- ===== src/Procrun/Handles/Blocks/Sizes.antt =====
-- The sizes of blocks.
use boundary_event_sdk.Prelude.{
  ℕ, ◌+◌, ◌%◌, ◌^◌, ◌≡◌, ◌≤◌, ◌<◌, ◌⊎◌, inl, inr, ltb, Bool-cases, tests, arith,
}
use boundary_event_sdk.Procrun.Handles.Blocks.{align_default, physical_size}

-- On a platform of 64 bits, what a pool takes from the heap for a request either has room for the header and
-- what was asked for, and at most 15 bytes more, in multiples of 16; or the request, the header and 15 come
-- to 2 ^ 32 or more, and the block is smaller than the header and 16 bytes.
pub physical_size-Fits :
    (header size : ℕ)
    → size < 2 ^ 32
    → header ≤ 64
    → ((size + header ≤ physical_size 64 header size)
        × (physical_size 64 header size < size + header + 16)
        × (physical_size 64 header size % 16 ≡ 0))
      ⊎ ((2 ^ 32 ≤ size + header + 15) × (physical_size 64 header size < header + 16))
unfolding physical_size align_default
physical_size-Fits header size small short = elim (Bool-cases (ltb (size + header + 15) (2 ^ 32))) [
  | inl fits ↦ inl (omega (tests, fits), omega (tests, fits), omega (tests, fits))
  | inr over ↦
      let above : 2 ^ 32 ≤ size + header + 15 = ground (arith, over) in
      inr (above, omega (arith, above))
]
