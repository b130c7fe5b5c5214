-- ===== src/Procrun/Handles/Manager.antt =====
-- The counted start and end of the handle manager: `apxHandleManagerInitialize` and
-- `apxHandleManagerDestroy`.
pub mod Counts
use boundary_event_sdk.Prelude.{
  ℕ, zero, suc, ◌-◌, Bool, true, false, not, Option, none, some, List, [], ◌∷◌, ◌==◌, if◌then◌else◌,
  ℤ, pos, negsuc,
}

-- `_st_sys_init`, and whether there is a system pool
pub record Manager : Type 0 where
  pub count : ℤ
  pub has_pool : Bool

abbrev pub up : ℤ → ℤ
up (pos n) = pos (suc n)
up (negsuc zero) = pos 0
up (negsuc (suc n)) = negsuc n

abbrev pub down : ℤ → ℤ
down (pos zero) = negsuc 0
down (pos (suc n)) = pos n
down (negsuc n) = negsuc (suc n)

abbrev pub is_none : ℤ → Bool
is_none (pos zero) = true
is_none (pos (suc n)) = false
is_none (negsuc n) = false

-- `apxHandleManagerInitialize`; `created` is the answer of `__apxCreateSystemPool`.
unfoldable pub initialize : (created : Bool) → Manager → Bool × Manager
initialize created m =
    if is_none (m.count)
    then (created, record { count = up (m.count); has_pool = created })
    else (true, record m { count = up (m.count) })

-- `apxHandleManagerDestroy`; `none` is a fault, the use of a pool that is not there.
unfoldable pub destroy : Manager → Option (Bool × Manager)
destroy m =
    if not (is_none (down (m.count)))
    then some (false, record m { count = down (m.count) })
    else if m.has_pool
    then some (true, record { count = down (m.count); has_pool = false })
    else none

pub data Use : Type 0 where
  starts : (created : Bool) → Use
  ends : Use

unfoldable pub run_uses : List Use → Manager → Option Manager
unfolding initialize destroy
run_uses [] m = some m
run_uses (starts created ∷ us) m = run_uses us ((initialize created m).1)
run_uses (ends ∷ us) m = elim (destroy m) [ none ↦ none | some (rv, m') ↦ run_uses us m' ]
