-- ===== src/Procrun/Control.antt =====
-- `apxServiceControl` of src/native/windows/src/service.c, over what the service control manager, the
-- clock and the caller's callback answer, round by round of its loop.
pub mod Ending
pub mod Tests
use boundary_event_sdk.Prelude.{
  ℕ, ◌+◌, ◌-◌, ◌/◌, ◌%◌, ◌^◌, ltb, leb, Bool, true, false, not, ◌&&◌, ◌||◌, Option, none, some,
  List, [], ◌∷◌, ◌==◌, if◌then◌else◌,
}

-- The state, the check point and the wait hint of a `SERVICE_STATUS`
pub record Report : Type 0 where
  pub state : ℕ
  pub check_point : ℕ
  pub wait_hint : ℕ

-- `SERVICE_STOPPED` up to `SERVICE_PAUSED`
abbrev pub service_stopped : ℕ
service_stopped = 1

abbrev pub start_pending : ℕ
start_pending = 2

abbrev pub stop_pending : ℕ
stop_pending = 3

abbrev pub service_running : ℕ
service_running = 4

abbrev pub pause_pending : ℕ
pause_pending = 6

abbrev pub service_paused : ℕ
service_paused = 7

-- `SERVICE_CONTROL_STOP`, `SERVICE_CONTROL_PAUSE` and `SERVICE_CONTROL_CONTINUE`
abbrev pub control_stop : ℕ
control_stop = 1

abbrev pub control_pause : ℕ
control_pause = 2

abbrev pub control_continue : ℕ
control_continue = 3

-- The user's controls, 128 up to 223 in three groups of 32
unfoldable pub user_goal : ℕ → Option (ℕ × ℕ)
user_goal control =
    if not (ltb 127 control && ltb control 224)
    then none
    else if ltb control 160
    then some (start_pending, service_running)
    else if ltb control 192
    then some (stop_pending, service_stopped)
    else some (pause_pending, service_paused)

-- `dwPending` and `dwState` of a control
unfoldable pub goal : ℕ → Option (ℕ × ℕ)
unfolding user_goal
goal control =
    if control == control_continue
    then some (start_pending, service_running)
    else if control == control_stop
    then some (stop_pending, service_stopped)
    else if control == control_pause
    then some (pause_pending, service_paused)
    else user_goal control

-- How long a round sleeps.
unfoldable pub wait_time : (hint : ℕ) → ℕ
wait_time hint =
    let tenth = hint / 10 in
    if ltb tenth 1000 then 1000 else if ltb 10000 tenth then 10000 else tenth

-- `GetTickCount() - dwStart` of two `DWORD`s
unfoldable pub elapsed : (now start : ℕ) → ℕ
elapsed now start = (now + 2 ^ 32 - start) % 2 ^ 32

-- One round: the status that is queried, whether the callback goes on, and the clock behind the sleep.
pub record Round : Type 0 where
  pub status : Option Report
  pub goes_on : Bool
  pub tick : ℕ

pub data Loop : Type 0 where
  left waiting : Loop

-- The loop from `dwStart` and `dwCheck` on; `waiting` when the rounds are used up.
unfoldable pub control_loop : (pending start check : ℕ) → List Round → Loop
unfolding elapsed
control_loop pending start check [] = waiting
control_loop pending start check (r ∷ rs) = elim r.status [
  | none ↦ left
  | some q ↦
      let progress = control_loop pending (r.tick) (q.check_point) rs in
      let same = control_loop pending start check rs in
      if not (q.state == pending) || not (r.goes_on)
      then left
      else if ltb check (q.check_point)
      then progress
      else if ltb (q.wait_hint) (elapsed (r.tick) start)
      then left
      else same
]

-- What is done first, and what it answers
pub record Answers : Type 0 where
  pub is_open : Bool
  pub before : Option Report
  pub service_starts : Bool
  pub dependents_stop : Bool
  pub control_sent : Option Report
  pub tick : ℕ
  pub final : Option Report

-- The status behind the start or the control, when it succeeds.
unfoldable pub control_result : (control : ℕ) (before : Report) (a : Answers) → Option Report
control_result control before a =
    if control == control_continue && not (before.state == service_paused)
    then if a.service_starts then some before else none
    else if control == control_stop && not (a.dependents_stop)
    then none
    else a.control_sent

abbrev reaches : (state : ℕ) → Option Report → Bool
reaches state none = false
reaches state (some q) = q.state == state

abbrev answer_behind : Loop → Bool → Option Bool
answer_behind left b = some b
answer_behind waiting b = none

-- From the control on: what is returned, or `none` while the loop has not ended
unfoldable pub wait_for :
    (pending state : ℕ) (a : Answers) (rounds : List Round) (after : Option Report) → Option Bool
unfolding control_loop
wait_for pending state a rounds none = some (reaches state (a.final))
wait_for pending state a rounds (some after) =
    answer_behind (control_loop pending (a.tick) (after.check_point) rounds)
      (reaches state (a.final))

-- From the first query on
unfoldable pub controlled :
    (control : ℕ) (a : Answers) (rounds : List Round) (before : Option Report)
    (aim : Option (ℕ × ℕ))
    → Option Bool
unfolding control_result wait_for
controlled control a rounds before none = some false
controlled control a rounds none (some aim) = some false
controlled control a rounds (some before) (some (pending, state)) =
    wait_for pending state a rounds (control_result control before a)

-- `apxServiceControl`
unfoldable pub service_control : (control : ℕ) (a : Answers) (rounds : List Round) → Option Bool
unfolding goal controlled
service_control control a rounds =
    if not (a.is_open) then some false else controlled control a rounds (a.before) (goal control)
