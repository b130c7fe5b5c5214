-- ===== src/Procrun/Handles/Manager/Counts.antt =====
-- The manager under counted uses.
use boundary_event_sdk.Prelude.{
  ℕ, zero, suc, ◌≡◌, ◌≢◌, refl, true, false, none, some, List, [], ◌∷◌, pos,
}
use boundary_event_sdk.Procrun.Handles.Manager.{
  Manager, initialize, destroy, Use, starts, ends, run_uses,
}

-- The pool is created where there is none yet, and no use ends that has not started.
abbrev pub IsCounted : ℕ → List Use → Type 0
IsCounted n [] = Unit {0}
IsCounted zero (starts created ∷ us) = (created ≡ true) × IsCounted (suc zero) us
IsCounted (suc n) (starts created ∷ us) = IsCounted (suc (suc n)) us
IsCounted zero (ends ∷ us) = zero ≢ zero
IsCounted (suc n) (ends ∷ us) = IsCounted n us

-- The uses that are left
abbrev pub still_used : ℕ → List Use → ℕ
still_used n [] = n
still_used n (starts created ∷ us) = still_used (suc n) us
still_used zero (ends ∷ us) = still_used zero us
still_used (suc n) (ends ∷ us) = still_used n us

abbrev pub used_by : ℕ → Manager
used_by zero = record { count = pos 0; has_pool = false }
used_by (suc n) = record { count = pos (suc n); has_pool = true }

-- As long as no use ends that has not started and the pool is created where there is none yet, the manager has its pool exactly
-- while there is a use, and never faults.
pub run_uses-used_by :
    (n : ℕ) (us : List Use)
    → IsCounted n us
    → run_uses us (used_by n) ≡ some (used_by (still_used n us))
unfolding run_uses initialize destroy
run_uses-used_by n [] h = refl
run_uses-used_by zero (starts created ∷ us) (e, h) = rw e (run_uses-used_by (suc zero) us h)
run_uses-used_by (suc n) (starts created ∷ us) h = run_uses-used_by (suc (suc n)) us h
run_uses-used_by zero (ends ∷ us) h = absurd (h refl)
run_uses-used_by (suc zero) (ends ∷ us) h = run_uses-used_by zero us h
run_uses-used_by (suc (suc n)) (ends ∷ us) h = run_uses-used_by (suc n) us h

-- If the pool cannot be created, the second start reports success all the same, and the ends fault.
initialize_unnoticed :
    let failed = (initialize false (used_by 0)).1 in
    ((initialize true failed).0 ≡ true)
    × (run_uses (ends ∷ ends ∷ []) ((initialize true failed).1) ≡ none)
unfolding run_uses initialize destroy
initialize_unnoticed = (refl, refl)
