-- ===== src/Procrun/Control/Tests.antt =====
-- A stop of a service that makes no progress.
use boundary_event_sdk.Prelude.{ℕ, ◌≡◌, refl, Bool, true, some, List, [], ◌∷◌, arith}
use boundary_event_sdk.Procrun.Control.{
  Report, Round, Answers, service_control, controlled, wait_for, control_loop, control_result,
  elapsed, goal, user_goal, control_stop, start_pending, service_running, stop_pending, wait_time,
  reaches,
}
use boundary_event_sdk.Procrun.Control.Ending.{StartsAt, Stalled, wanted, service_control_ends}

abbrev stopping : Report
stopping = record { state = stop_pending; check_point = 1; wait_hint = 2000 }

abbrev stopped : Report
stopped = record { state = 1; check_point = 0; wait_hint = 0 }

abbrev round_at : ℕ → Round
round_at tick = record { status = some stopping; goes_on = true; tick = tick }

abbrev three_rounds : List Round
three_rounds = round_at 1200 ∷ round_at 2200 ∷ round_at 3200 ∷ []

abbrev answers : Answers
answers = record {
  is_open = true;
  before = some (record { state = service_running; check_point = 0; wait_hint = 0 });
  service_starts = true;
  dependents_stop = true;
  control_sent = some stopping;
  tick = 100;
  final = some stopped;
}

three_rounds-Stalled : Stalled 1 2000 100 three_rounds
unfolding wait_time
three_rounds-Stalled = omega arith

stopping_check : (before : Report) → StartsAt 1 (control_result control_stop before answers)
unfolding control_result
stopping_check before = refl

service_control_ends_example :
    (result : Bool) × (service_control control_stop answers three_rounds ≡ some result)
    × (result ≡ true → reaches (wanted control_stop) (answers.final) ≡ true)
service_control_ends_example =
    service_control_ends control_stop 1 2000 answers three_rounds (omega arith) stopping_check
      three_rounds-Stalled

-- It has stopped by the last query, behind the rounds.
stops_late : service_control control_stop answers three_rounds ≡ some true
unfolding service_control controlled wait_for control_loop control_result elapsed goal
stops_late = refl

-- A user's control of the first group wants the service to run.
user_control : goal 130 ≡ some (start_pending, service_running)
unfolding goal user_goal
user_control = refl
