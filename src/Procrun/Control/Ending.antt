-- ===== src/Procrun/Control/Ending.antt =====
-- A service that makes no progress is not waited for without end.
use boundary_event_sdk.Prelude.{
  ℕ, ◌+◌, ◌*◌, ◌^◌, ◌<◌, ◌≤◌, ◌≡◌, refl, Bool, true, false, not, Option, none, some, List, [], ◌∷◌,
  length, arith, Option-cases, if_elim, inl, inr,
}
use boundary_event_sdk.Procrun.Control.{
  Report, Round, left, control_loop, elapsed, wait_time, goal, Answers, service_control,
  control_result, controlled, wait_for, reaches,
}

-- Whatever a round's status is, its check point is not above `check` and its hint not above `hint`.
abbrev IsStalled : (check hint : ℕ) → Option Report → Type 0
IsStalled check hint none = Unit {0}
IsStalled check hint (some q) = (q.check_point ≤ check) × (q.wait_hint ≤ hint)

abbrev slept : Option Report → ℕ
slept none = 0
slept (some q) = wait_time (q.wait_hint)

-- No round shows progress, and the clock, from `last` on, goes on by what each round sleeps and does not
-- wrap.
abbrev pub Stalled : (check hint last : ℕ) → List Round → Type 0
Stalled check hint last [] = Unit {0}
Stalled check hint last (r ∷ rs) =
    IsStalled check hint (r.status)
    × (last + slept (r.status) ≤ r.tick)
    × (r.tick < 2 ^ 32)
    × Stalled check hint (r.tick) rs

wait_time_second : (hint : ℕ) → 1000 ≤ wait_time hint
unfolding wait_time
wait_time_second hint = ground arith

-- One round that finds the service pending, without progress, and within its hint, goes on as before.
control_loop_round :
    (pending start check : ℕ) (r : Round) (q : Report) (rs : List Round)
    → r.status ≡ some q
    → q.check_point ≤ check
    → start ≤ r.tick
    → r.tick < 2 ^ 32
    → (r.tick ≤ start + q.wait_hint → control_loop pending start check rs ≡ left)
    → control_loop pending start check (r ∷ rs) ≡ left
unfolding control_loop elapsed
control_loop_round pending start check r q rs e below from small rest = rw e (ground (arith, rest))

control_loop-left :
    (pending start check hint last : ℕ) (rs : List Round)
    → start ≤ last
    → last ≤ start + hint
    → start + hint < last + length rs * 1000
    → Stalled check hint last rs
    → control_loop pending start check rs ≡ left
control_loop-left pending start check hint last [] from until enough h = absurd (omega arith)
control_loop-left pending start check hint last (r ∷ rs) from until enough (h, late, small, hs) =
    elim (Option-cases (r.status)) [
      | inl gone ↦ unfold control_loop in rw gone refl
      | inr (q, e) ↦
          let stalled : IsStalled check hint (some q) = rw e at h in
          let sleeps : last + wait_time (q.wait_hint) ≤ r.tick = rw e at late in
          control_loop_round pending start check r q rs e stalled.0 (omega (arith, sleeps)) small
            (λ within.
              control_loop-left pending start check hint (r.tick) rs (omega (arith, sleeps))
                (omega (arith, stalled.1)) (omega (arith, sleeps, wait_time_second (q.wait_hint)))
                hs)
    ]

-- The check point behind the control
abbrev pub StartsAt : (check : ℕ) → Option Report → Type 0
StartsAt check none = Unit {0}
StartsAt check (some q) = q.check_point ≡ check

-- The state that a control asks for
abbrev pub goal_state : Option (ℕ × ℕ) → ℕ
goal_state none = 0
goal_state (some aim) = aim.1

abbrev pub wanted : ℕ → ℕ
wanted control = goal_state (goal control)

-- An answer that is `TRUE` only with the service in that state.
abbrev Returns : (state : ℕ) (a : Answers) → Option Bool → Type 0
Returns state a answer =
    (result : Bool) × (answer ≡ some result) × (result ≡ true → reaches state (a.final) ≡ true)

Returns-false : (state : ℕ) (a : Answers) → Returns state a (some false)
Returns-false state a = (false, refl, λ e. absurd (cc))

Returns-final : (state : ℕ) (a : Answers) → Returns state a (some (reaches state (a.final)))
Returns-final state a = (reaches state (a.final), refl, λ e. e)

wait_for-Returns :
    (pending state check hint : ℕ) (a : Answers) (rounds : List Round) (after : Option Report)
    → hint < length rounds * 1000
    → StartsAt check after
    → Stalled check hint (a.tick) rounds
    → Returns state a (wait_for pending state a rounds after)
unfolding wait_for
wait_for-Returns pending state check hint a rounds none enough start stalled = Returns-final state a
wait_for-Returns pending state check hint a rounds (some after) enough start stalled =
    rw
      (
        start,
        control_loop-left pending (a.tick) check hint (a.tick) rounds (omega arith) (omega arith)
            (omega (arith, enough)) stalled,
      )
      (Returns-final state a)

controlled-Returns :
    (control check hint : ℕ) (a : Answers) (rounds : List Round) (before : Option Report)
    (aim : Option (ℕ × ℕ))
    → hint < length rounds * 1000
    → ((before : Report) → StartsAt check (control_result control before a))
    → Stalled check hint (a.tick) rounds
    → Returns (goal_state aim) a (controlled control a rounds before aim)
unfolding controlled
controlled-Returns control check hint a rounds before none enough start stalled = Returns-false 0 a
controlled-Returns control check hint a rounds none (some aim) enough start stalled =
    Returns-false (aim.1) a
controlled-Returns control check hint a rounds (some before) (some (pending, state)) enough start
      stalled =
    wait_for-Returns pending state check hint a rounds (control_result control before a) enough
      (start before) stalled

-- If no round shows a check point above the one behind the control, and none a wait hint above `hint`,
-- then `apxServiceControl` returns after at most one round for each second of the hint and one more,
-- whatever the service and the callback answer. It returns `TRUE` only if the last status is the one
-- that the control asks for. The clock goes on by what each round sleeps and does not wrap.
pub service_control_ends :
    (control check hint : ℕ) (a : Answers) (rounds : List Round)
    → hint < length rounds * 1000
    → ((before : Report) → StartsAt check (control_result control before a))
    → Stalled check hint (a.tick) rounds
    → (result : Bool) × (service_control control a rounds ≡ some result)
      × (result ≡ true → reaches (wanted control) (a.final) ≡ true)
unfolding service_control
service_control_ends control check hint a rounds enough start stalled =
    if_elim (Returns (goal_state (goal control)) a) (not (a.is_open)) _ _
      (λ _. Returns-false (goal_state (goal control)) a)
      (λ _.
        controlled-Returns control check hint a rounds (a.before) (goal control) enough start
          stalled)
