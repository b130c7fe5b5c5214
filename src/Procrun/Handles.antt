-- ===== src/Procrun/Handles.antt =====
-- The pools and handles of src/native/windows/src/handles.c.
pub mod Manager
pub mod Blocks
pub mod Closing
pub mod Messages
pub mod Tests
use mathlib.Core.Option
use boundary_event_sdk.Prelude.{
  ℕ, zero, suc, ◌+◌, Bool, true, false, ◌&&◌, Option, none, some, List, [], ◌∷◌, ◌++◌, ◌==◌,
  if◌then◌else◌, ◌>>=◌,
}

abbrev pub type_invalid : ℕ
type_invalid = 3735928559

abbrev pub type_pool : ℕ
type_pool = 16777216

-- `stAPXHANDLE` for a handle that is no pool: its address stands for it.
pub record Handle : Type 0 where
  pub address : ℕ
  pub type : ℕ
  pub hooks : List ℕ
  pub has_event : Bool

-- What closing does: the callback of a handle, the end of its event thread, the end of a heap
pub data Event : Type 0 where
  called : ℕ → Event
  thread_ended : ℕ → Event
  heap_destroyed : ℕ → Event

-- A pool with its handles and the pools in it, both the last ones first. The callbacks do not change the
-- pools.
mutual
  pub data Pool : Type 0 where
    pool :
        (address type : ℕ) (has_heap : Bool) (size : ℕ) (handles : List Handle) (pools : Pools)
        → Pool

  pub data Pools : Type 0 where
    no_pools : Pools
    more_pools : Pool → Pools → Pools

-- The loop over the hooks calls the first one, frees it, and then reads the next one from it: `none`, as for
-- any read of memory that is free.
unfoldable pub hook_calls : (address : ℕ) → List ℕ → Option (List Event)
hook_calls address [] = some []
hook_calls address (k ∷ ks) = none

-- The calls of `apxCloseHandle` for a handle whose type is valid
unfoldable pub close_calls : Handle → Option (List Event)
unfolding hook_calls
close_calls h = do
  hooks ← hook_calls (h.address) (h.hooks)
  some (called (h.address) ∷ (hooks ++ (if h.has_event then thread_ended (h.address) ∷ [] else [])))

-- The loop of `__apxPoolCallback` over the handles, on fuel: it closes the first one until there is none,
-- and a handle whose type is invalid is not taken out of the list.
unfoldable pub close_first : (fuel : ℕ) → List Handle → Option (List Event)
unfolding close_calls
close_first zero hs = none
close_first (suc f) [] = some []
close_first (suc f) (h ∷ hs) =
    let stuck = close_first f (h ∷ hs) in
    let rest = close_first f hs in
    if h.type == type_invalid then stuck else elim (close_calls h) [
      | none ↦ none
      | some calls ↦ Option.map (λ (es : List Event). calls ++ es) rest
    ]

pub data Message : Type 0 where
  wm_close : Message
  wm_clear : Message
  wm_other : Message

-- `dwSize` behind the callback, and what becomes of the heap
unfoldable pub size_after : Message → ℕ → ℕ
size_after wm_close n = 0
size_after wm_clear n = 0
size_after wm_other n = n

unfoldable pub heap_calls : Message → (has_heap : Bool) (address : ℕ) → List Event
heap_calls wm_close true address = heap_destroyed address ∷ []
heap_calls _ _ address = []

-- A pool and what was called for it
abbrev pub Called : Type 0
Called = List Event × Pool

unfoldable pub finish_pool : Message → Pool → (List Event × Pools) → List Event → Called
unfolding size_after heap_calls
finish_pool msg (pool a t heap size hs ps) (below, ps') own =
    (below ++ (own ++ heap_calls msg heap a), pool a t heap (size_after msg size) [] ps')

-- `__apxPoolCallback`, and its loop over the pools in a pool; the fuel is for each loop over handles.
unfoldable mutual
  unfolding close_first finish_pool

  pub pool_callback : (fuel : ℕ) → Message → Pool → Option Called
  pool_callback fuel msg (pool a t heap size hs ps) =
      let below = pools_callback fuel msg ps in
      if t == type_pool
      then elim below [
        | none ↦ none
        | some b ↦ Option.map (finish_pool msg (pool a t heap size hs ps) b) (close_first fuel hs)
      ]
      else some ([], pool a t heap size hs ps)

  pub pools_callback : (fuel : ℕ) → Message → Pools → Option (List Event × Pools)
  pools_callback fuel msg no_pools = some ([], no_pools)
  pools_callback fuel msg (more_pools p ps) = do
    (es, p') ← pool_callback fuel msg p
    (more, ps') ← pools_callback fuel msg ps
    some (es ++ more, more_pools p' ps')
