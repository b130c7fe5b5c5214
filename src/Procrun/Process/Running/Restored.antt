-- ===== src/Procrun/Process/Running/Restored.antt =====
-- The standard handles of this process are those it had before, once the child's handle is closed.
use boundary_event_sdk.Prelude.{
  ◌≡◌, refl, ◌∙◌, Bool, true, false, not, Option, none, some, if◌then◌else◌, arith, if_elim,
}
use boundary_event_sdk.Procrun.Process.Running.{
  Std, Process, System, Step, Started, Ending, make_inp, make_out, make_err, create_child_pipes,
  save_std, restore_std, close_parent_ends, close_child_ends, start_child, execute, process_close,
  on_close,
}

make_inp-saved : (x : Option Std) (q : Step) → q.0.saved ≡ x → (make_inp q).0.saved ≡ x
unfolding make_inp
make_inp-saved x (p, going, s) e = if_elim (λ (r : Step). r.0.saved ≡ x) going _ _ (λ _. e) (λ _. e)

make_out-saved : (x : Option Std) (q : Step) → q.0.saved ≡ x → (make_out q).0.saved ≡ x
unfolding make_out
make_out-saved x (p, going, s) e = if_elim (λ (r : Step). r.0.saved ≡ x) going _ _ (λ _. e) (λ _. e)

make_err-saved : (x : Option Std) (q : Step) → q.0.saved ≡ x → (make_err q).0.saved ≡ x
unfolding make_err
make_err-saved x (p, going, s) e = if_elim (λ (r : Step). r.0.saved ≡ x) going _ _ (λ _. e) (λ _. e)

create_child_pipes-saved : (p : Process) (s : System) → (create_child_pipes p s).0.saved ≡ p.saved
unfolding create_child_pipes
create_child_pipes-saved p s =
    make_err-saved (p.saved) (make_out (make_inp (p, true, s))) (
      make_out-saved (p.saved) (make_inp (p, true, s)) (make_inp-saved (p.saved) (p, true, s) refl))

start_child-saved :
    (c : Option Started) (p : Process) (s : System) → (start_child c p s).1.saved ≡ p.saved
unfolding start_child close_child_ends close_parent_ends
start_child-saved none p s = refl
start_child-saved (some c) p s = refl

-- A start that is not refused saves the handles, whether or not it succeeds.
execute-saved :
    (c : Option Started) (p : Process) (s : System)
    → p.initialized ≡ false
    → (execute c p s).1.saved ≡ some (s.std)
unfolding execute close_parent_ends save_std
execute-saved c p s fresh =
    let P = λ (r : Bool × Process × System). r.1.saved ≡ some (s.std) in
    let made = create_child_pipes-saved (save_std p s) s in
    if_elim P (p.initialized) _ _ (λ started. absurd (ground (arith, started, fresh)))
      (λ _.
        if_elim P (not ((create_child_pipes (save_std p s) s).1)) _ _ (λ _. made)
          (λ _. start_child-saved c _ _ ∙ made))

process_close-saved :
    (e : Ending) (p : Process) (s : System) → (process_close e p s).0.saved ≡ p.saved
unfolding process_close
process_close-saved e p s =
    if_elim (λ (q : Process). q.saved ≡ p.saved) (e.active) _ _ (λ _. refl) (λ _. refl)

on_close-std :
    (e : Ending) (p : Process) (s : System) (x : Std)
    → p.saved ≡ some x
    → (on_close e p s).1.std ≡ x
unfolding on_close restore_std close_parent_ends
on_close-std e p s x h =
    let kept : (if p.running then (process_close e p s).0 else p).saved ≡ some x =
      if_elim (λ (q : Process). q.saved ≡ some x) (p.running) _ _
        (λ _. process_close-saved e p s ∙ h) (λ _. h) in
    rw kept refl

-- Whatever the system answers, and whether or not the child is started: if a process that was not started
-- before is executed and then closed, the standard handles are those from before.
pub execute-restores :
    (c : Option Started) (e : Ending) (p : Process) (s : System)
    → p.initialized ≡ false
    → (on_close e ((execute c p s).1) ((execute c p s).2)).1.std ≡ s.std
execute-restores c e p s fresh = on_close-std e _ _ (s.std) (execute-saved c p s fresh)
