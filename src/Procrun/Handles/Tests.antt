-- ===== src/Procrun/Handles/Tests.antt =====
-- Pools and handles on small inputs.
use boundary_event_sdk.Prelude.{
  ℕ, ◌+◌, ◌≡◌, ◌≤◌, ◌<◌, ◌%◌, ◌^◌, ◌⊎◌, refl, true, false, some, List, [], ◌∷◌, arith,
}
use boundary_event_sdk.Procrun.Handles.{
  Handle, Pool, pool, no_pools, more_pools, Event, called, thread_ended, heap_destroyed, wm_close,
  pool_callback, close_first, finish_pool, close_calls, hook_calls, heap_calls, size_after,
  type_pool,
}
use boundary_event_sdk.Procrun.Handles.Closing.{
  IsOpen, IsEmptied, pool_weight, tally, pool_callback_closes,
}
use boundary_event_sdk.Procrun.Handles.Manager.{starts, ends, run_uses}
use boundary_event_sdk.Procrun.Handles.Manager.Counts.{used_by, run_uses-used_by}
use boundary_event_sdk.Procrun.Handles.Blocks.{physical_size, align_default}
use boundary_event_sdk.Procrun.Handles.Blocks.Sizes.{physical_size-Fits}

abbrev process : Handle
process = record { address = 1; type = 100663296; hooks = []; has_event = true }

abbrev registry : Handle
registry = record { address = 2; type = 134217728; hooks = []; has_event = false }

abbrev system_pool : Pool
system_pool =
    pool 10 type_pool false 2 (process ∷ [])
      (more_pools (pool 11 type_pool true 1 (registry ∷ []) no_pools) no_pools)

closing_order :
    pool_callback 2 wm_close system_pool
    ≡ some (
      called 2 ∷ heap_destroyed 11 ∷ called 1 ∷ thread_ended 1 ∷ [],
      pool 10 type_pool false 0 [] (more_pools (pool 11 type_pool true 0 [] no_pools) no_pools),
    )
unfolding pool_callback close_first finish_pool close_calls hook_calls heap_calls size_after
closing_order = refl

pool_callback_closes_example :
    (es : List Event) × ((p' : Pool) × (pool_callback 2 wm_close system_pool ≡ some (es, p'))
      × IsEmptied p'
      × ((f : Event → ℕ) → tally f es ≡ pool_weight f system_pool))
pool_callback_closes_example = pool_callback_closes 2 system_pool (unfold IsOpen in ground arith)

run_uses-used_by_example :
    run_uses (starts true ∷ starts false ∷ ends ∷ ends ∷ []) (used_by 0) ≡ some (used_by 0)
run_uses-used_by_example =
    run_uses-used_by 0 (starts true ∷ starts false ∷ ends ∷ ends ∷ []) (refl, tt)

physical_size-Fits_example :
    ((100 + 24 ≤ physical_size 64 24 100)
      × (physical_size 64 24 100 < 100 + 24 + 16)
      × (physical_size 64 24 100 % 16 ≡ 0))
    ⊎ ((2 ^ 32 ≤ 100 + 24 + 15) × (physical_size 64 24 100 < 24 + 16))
physical_size-Fits_example = physical_size-Fits 24 100 (omega arith) (omega arith)

-- A request of nearly 2 ^ 32 bytes gets a block of 16.
short_block : physical_size 64 24 4294967280 ≡ 16
unfolding physical_size align_default
short_block = refl
