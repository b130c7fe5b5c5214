-- ===== src/Daemon/Controller.antt =====
-- `run_controller` of src/native/unix/native/jsvc-unix.c: fork a child, wait for it to end, and fork the
-- next one or leave. A round is one turn of its loop: what `fork` and `waitpid` gave, and the clock.
pub mod Rounds
pub mod Deletions
use boundary_event_sdk.Prelude.{
  ℕ, ◌+◌, Bool, true, false, not, ◌&&◌, Option, none, some, List, [], ◌∷◌, ◌++◌, Bytes, ◌==◌, ltb,
  if◌then◌else◌,
}
use boundary_event_sdk.Arguments.{ArgData}
use boundary_event_sdk.Daemon.Kernel.{Status, exited, signaled, stopped}

-- `ran`: the seconds that the child was there. `nap`: how long `sleep(60)` lasts, if it is called; a
-- signal may end it early.
pub data Round : Type 0 where
  fork_fails : Round
  child_ends : (ran nap : ℕ) → Status → Round

pub data Action : Type 0 where
  started : (time : ℕ) → Action
  unlinked : Bytes → Action
  rested : (nap : ℕ) → Action

-- `result` is `none` while the loop is waiting for the next child.
pub record Run : Type 0 where
  pub actions : List Action
  pub result : Option ℕ

-- What the loop does with a status: go round again, or return
pub data Verdict : Type 0 where
  again : Verdict
  leave : ℕ → Verdict

unfoldable pub verdict : Status → Verdict
verdict (exited n) = if n == 123 then again else if n == 0 then leave 0 else leave 1
verdict (signaled n) = again
verdict (stopped n) = leave 1

-- "Delete the pid file"
unfoldable pub delete_pidf : ArgData → Status → List Action
delete_pidf args (exited n) =
    if not args.vers && not args.chck && not (n == 122) then unlinked args.pidf ∷ [] else []
delete_pidf args (signaled n) = []
delete_pidf args (stopped n) = []

-- "Waiting 60 s to prevent looping"
unfoldable pub too_soon : (laststart now : ℕ) → Bool
too_soon laststart now = ltb now (laststart + 60)

unfoldable pub run_controller : ArgData → (now : ℕ) → List Round → Run
run_controller args now [] = record { actions = []; result = none }
run_controller args now (fork_fails ∷ rounds) = record { actions = []; result = some 1 }
run_controller args now (child_ends ran nap status ∷ rounds) =
    let soon = too_soon now (now + ran) in
    let rest = run_controller args (if soon then now + ran + nap else now + ran) rounds in
    let pause = if soon then rested nap ∷ [] else [] in
    let deleted = delete_pidf args status in
    elim (verdict status) [
      | again ↦ record {
        actions = started now ∷ (deleted ++ (pause ++ rest.actions));
        result = rest.result;
      }
      | leave n ↦ record { actions = started now ∷ deleted; result = some n }
    ]
