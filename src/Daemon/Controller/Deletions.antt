-- ===== src/Daemon/Controller/Deletions.antt =====
-- When `run_controller` deletes the pid file.
use boundary_event_sdk.Prelude.{
  ℕ, ◌+◌, ◌≡◌, refl, Bool, false, not, ◌&&◌, List, [], ◌∷◌, ◌++◌, Bytes, ◌==◌, if◌then◌else◌, arith,
}
use boundary_event_sdk.Arguments.{ArgData}
use boundary_event_sdk.Daemon.Kernel.{exited, signaled, stopped}
use boundary_event_sdk.Daemon.Controller.{
  Round, fork_fails, child_ends, Action, started, unlinked, rested, verdict, delete_pidf, too_soon,
  run_controller,
}
use boundary_event_sdk.Daemon.Controller.Rounds.{restarts}

abbrev pub deletions : List Action → List Bytes
deletions [] = []
deletions (started t ∷ acts) = deletions acts
deletions (unlinked p ∷ acts) = p ∷ deletions acts
deletions (rested n ∷ acts) = deletions acts

-- The rounds up to the one that restarts nothing
abbrev pub played : List Round → List Round
played [] = []
played (r ∷ rounds) = r ∷ (if restarts r then played rounds else [])

-- 122: another launcher owns the pid file.
abbrev pub deletes : ArgData → Round → Bool
deletes args (child_ends ran nap (exited n)) = not args.vers && not args.chck && not (n == 122)
deletes args _ = false

abbrev pub expected : ArgData → List Round → List Bytes
expected args [] = []
expected args (r ∷ rounds) =
    if deletes args r then args.pidf ∷ expected args rounds else expected args rounds

deletions-append : (xs ys : List Action) → deletions (xs ++ ys) ≡ deletions xs ++ deletions ys
deletions-append [] ys = refl
deletions-append (started t ∷ xs) ys = deletions-append xs ys
deletions-append (unlinked p ∷ xs) ys = ground (arith, deletions-append xs ys)
deletions-append (rested n ∷ xs) ys = deletions-append xs ys

-- The controller deletes the pid file once for each child that exits, unless it exits with 122 (the
-- file is another launcher's) or the launcher only prints the version or checks; the file of a
-- child that a signal killed stays.
pub run_controller-deletions :
    (args : ArgData) (now : ℕ) (rounds : List Round)
    → deletions (run_controller args now rounds).actions ≡ expected args (played rounds)
unfolding run_controller verdict delete_pidf
run_controller-deletions args now [] = refl
run_controller-deletions args now (fork_fails ∷ rounds) = refl
run_controller-deletions args now (child_ends ran nap (exited n) ∷ rounds) = ground (
  arith,
  run_controller-deletions args (if too_soon now (now + ran) then now + ran + nap else now + ran)
      rounds,
)
run_controller-deletions args now (child_ends ran nap (signaled n) ∷ rounds) = ground (
  arith,
  run_controller-deletions args (if too_soon now (now + ran) then now + ran + nap else now + ran)
      rounds,
)
run_controller-deletions args now (child_ends ran nap (stopped n) ∷ rounds) = refl
