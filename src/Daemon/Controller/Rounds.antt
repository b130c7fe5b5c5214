-- ===== src/Daemon/Controller/Rounds.antt =====
-- What `run_controller` returns, when it starts a child, and when it deletes the pid file.
use boundary_event_sdk.Prelude.{
  ℕ, zero, ◌+◌, ◌≤◌, ◌≡◌, refl, Bool, true, false, Option, none, some, List, [], ◌∷◌, ◌++◌, ◌==◌,
  if◌then◌else◌, arith, append-nil,
}
use boundary_event_sdk.Arguments.{ArgData}
use boundary_event_sdk.Daemon.Kernel.{Status, exited, signaled, stopped}
use boundary_event_sdk.Daemon.Controller.{
  Round, fork_fails, child_ends, Action, started, unlinked, rested, Verdict, again, leave, verdict,
  delete_pidf, too_soon, run_controller,
}

-- A child that asked for a reload, or was killed, is started again.
abbrev pub restarts : Round → Bool
restarts fork_fails = false
restarts (child_ends ran nap (exited n)) = n == 123
restarts (child_ends ran nap (signaled n)) = true
restarts (child_ends ran nap (stopped n)) = false

-- The first round that restarts nothing
abbrev pub last_round : List Round → Option Round
last_round [] = none
last_round (r ∷ rounds) = if restarts r then last_round rounds else some r

-- Success is a child that exited with 0.
abbrev pub exit_code : Round → ℕ
exit_code (child_ends ran nap (exited zero)) = 0
exit_code _ = 1

abbrev pub outcome : Option Round → Option ℕ
outcome none = none
outcome (some r) = some (exit_code r)

-- The controller runs on exactly as long as its children exit with 123 or are killed by a signal; it
-- then returns 0 if the last child exited with 0, and 1 otherwise.
pub run_controller-outcome :
    (args : ArgData) (now : ℕ) (rounds : List Round)
    → (run_controller args now rounds).result ≡ outcome (last_round rounds)
unfolding run_controller verdict
run_controller-outcome args now [] = refl
run_controller-outcome args now (fork_fails ∷ rounds) = refl
run_controller-outcome args now (child_ends ran nap (exited n) ∷ rounds) = ground (
  arith,
  run_controller-outcome args (if too_soon now (now + ran) then now + ran + nap else now + ran)
      rounds,
)
run_controller-outcome args now (child_ends ran nap (signaled n) ∷ rounds) =
    run_controller-outcome args _ rounds
run_controller-outcome args now (child_ends ran nap (stopped n) ∷ rounds) = refl

abbrev pub start_times : List Action → List ℕ
start_times [] = []
start_times (started t ∷ acts) = t ∷ start_times acts
start_times (unlinked p ∷ acts) = start_times acts
start_times (rested n ∷ acts) = start_times acts

-- Each time is at least 60 after the one before, and the first is at least `from`.
abbrev pub Spaced : (from : ℕ) → List ℕ → Type 0
Spaced from [] = Unit {0}
Spaced from (t ∷ ts) = (from ≤ t) × Spaced (t + 60) ts

-- No `sleep(60)` is cut short.
abbrev pub Sleeps : List Round → Type 0
Sleeps [] = Unit {0}
Sleeps (fork_fails ∷ rounds) = Sleeps rounds
Sleeps (child_ends ran nap status ∷ rounds) = (60 ≤ nap) × Sleeps rounds

start_times-deleted :
    (args : ArgData) (status : Status) (acts : List Action)
    → start_times (delete_pidf args status ++ acts) ≡ start_times acts
unfolding delete_pidf
start_times-deleted args (exited n) acts = ground arith
start_times-deleted args status acts = refl

start_times-pause :
    (soon : Bool) (nap : ℕ) (acts : List Action)
    → start_times ((if soon then rested nap ∷ [] else []) ++ acts) ≡ start_times acts
start_times-pause true nap acts = refl
start_times-pause false nap acts = refl

-- The time at which the next round begins
abbrev next_start : (now ran nap : ℕ) → ℕ
next_start now ran nap = if too_soon now (now + ran) then now + ran + nap else now + ran

next_start-bound : (now ran nap : ℕ) → 60 ≤ nap → now + 60 ≤ next_start now ran nap
unfolding too_soon
next_start-bound now ran nap h = ground arith

run_controller-starts :
    (args : ArgData) (now ran nap : ℕ) (status : Status) (rounds : List Round)
    → start_times (run_controller args now (child_ends ran nap status ∷ rounds)).actions
      ≡ now ∷ elim (verdict status) [
        | again ↦ start_times (run_controller args (next_start now ran nap) rounds).actions
        | leave n ↦ []
      ]
unfolding run_controller
run_controller-starts args now ran nap status rounds = ground (
  arith,
  append-nil (delete_pidf args status),
  start_times-deleted args status [],
  start_times-deleted args status (
      (if too_soon now (now + ran) then rested nap ∷ [] else [])
      ++ (run_controller args (next_start now ran nap) rounds).actions),
  start_times-pause (too_soon now (now + ran)) nap
      (run_controller args (next_start now ran nap) rounds).actions,
)

Spaced-verdict :
    (v : Verdict) (from : ℕ) (ts : List ℕ)
    → Spaced from ts
    → Spaced from (elim v [ again ↦ ts | leave n ↦ [] ])
Spaced-verdict again from ts h = h
Spaced-verdict (leave n) from ts h = tt

-- Two children are started at least 60 seconds apart, unless a signal interrupts the sleep.
pub run_controller-Spaced :
    (args : ArgData) (now from : ℕ) (rounds : List Round)
    → Sleeps rounds
    → from ≤ now
    → Spaced from (start_times (run_controller args now rounds).actions)
unfolding run_controller
run_controller-Spaced args now from [] sleeps h = tt
run_controller-Spaced args now from (fork_fails ∷ rounds) sleeps h = tt
run_controller-Spaced args now from (child_ends ran nap status ∷ rounds) sleeps h =
    rw (run_controller-starts args now ran nap status rounds) (
      h,
      Spaced-verdict (verdict status) (now + 60) _ (
          run_controller-Spaced args (next_start now ran nap) (now + 60) rounds sleeps.1
            (next_start-bound now ran nap sleeps.0)),
    )
