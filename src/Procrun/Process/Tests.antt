-- ===== src/Procrun/Process/Tests.antt =====
-- Children on small inputs.
use boundary_event_sdk.Prelude.{
  ◌+◌, ◌≡◌, ◌≤◌, refl, true, false, none, some, List, [], ◌∷◌, codes, length, arith,
}
use boundary_event_sdk.Procrun.Process.Streams.{Answer}
use boundary_event_sdk.Procrun.Process.Arguments.{
  has_blank, set_command_args, split_from, set_command_args-split_from,
}
use boundary_event_sdk.Procrun.Process.Running.{
  Process, System, Started, Ending, terminated, exit_called, execute, on_close, process_close,
  kills_of, create_child_pipes, make_inp, make_out, make_err, make_pipe, close_handle, save_std,
  redirect_std, restore_std, close_parent_ends, close_child_ends, start_child,
}
use boundary_event_sdk.Procrun.Process.Running.Restored.{execute-restores}

abbrev single_bytes : List Answer
single_bytes = (some 1, true) ∷ (some 1, true) ∷ (some 1, true) ∷ []

set_command_args-split_from_example :
    (length ((set_command_args (codes "run me") (codes "-a" ∷ codes "b c" ∷ [])).1) + 1
      ≤ (set_command_args (codes "run me") (codes "-a" ∷ codes "b c" ∷ [])).0)
    × (split_from false false false []
          ((set_command_args (codes "run me") (codes "-a" ∷ codes "b c" ∷ [])).1)
        ≡ some (codes "run me" ∷ codes "-a" ∷ codes "b c" ∷ []))
set_command_args-split_from_example =
    set_command_args-split_from (codes "run me") (codes "-a" ∷ codes "b c" ∷ [])
      (unfold has_blank in ground arith) (unfold has_blank in ground arith)

abbrev fresh : Process
fresh = record {
  running = false;
  initialized = false;
  child_inp = none;
  child_out = none;
  child_err = none;
  inp_wr = none;
  out_rd = none;
  err_rd = none;
  saved = none;
  process = none;
  threads = [];
}

abbrev six_pipes : System
six_pipes = record {
  std = (1, 2, 3);
  pipes =
      some (10, 11)
      ∷ some (12, 13)
      ∷ some (14, 15)
      ∷ some (20, 21)
      ∷ some (22, 23)
      ∷ some (24, 25)
      ∷ [];
  inherits = true ∷ true ∷ true ∷ true ∷ true ∷ true ∷ [];
  closed = [];
  kills = [];
}

abbrev stubborn : Ending
stubborn = record {
  active = true;
  ends_by_input = false;
  still_active = true;
  duplicated = true;
  remote = true;
  ends_by_thread = false;
}

abbrev child : Started
child = record { process = 30; main_thread = 31; workers = 32 ∷ 33 ∷ 34 ∷ [] }

remote_then_terminated :
    (on_close stubborn
      ((execute (some child) fresh six_pipes).1)
      ((execute (some child) fresh six_pipes).2)).1.kills
    ≡ terminated 30 ∷ exit_called 30 ∷ []
unfolding on_close process_close kills_of execute create_child_pipes make_inp make_out make_err
    make_pipe close_handle save_std redirect_std restore_std close_parent_ends close_child_ends
    start_child
remote_then_terminated = refl

execute-restores_example :
    (on_close stubborn
      ((execute (some child) fresh six_pipes).1)
      ((execute (some child) fresh six_pipes).2)).1.std
    ≡ (1, 2, 3)
execute-restores_example = execute-restores (some child) stubborn fresh six_pipes refl

-- After a start that fails a second one saves the ends of the first child's pipes, which are closed, and the
-- handles of this process are lost.
second_start_loses :
    let (r1, p1, s1) = execute none fresh six_pipes in
    let (r2, p2, s2) = execute (some child) p1 s1 in (on_close stubborn p2 s2).1.std ≡ (10, 13, 15)
unfolding on_close process_close kills_of execute create_child_pipes make_inp make_out make_err
    make_pipe close_handle save_std redirect_std restore_std close_parent_ends close_child_ends
    start_child
second_start_loses = refl

-- A pipe that cannot be made leaves the child's end of the pipe before it open.
end_left_open :
    let (r, p, s) = execute none fresh (record six_pipes { pipes = some (10, 11) ∷ none ∷ [] }) in
    (p.child_inp ≡ some 10) × ((on_close stubborn p s).1.closed ≡ 11 ∷ [])
unfolding on_close process_close kills_of execute create_child_pipes make_inp make_out make_err
    make_pipe close_handle save_std redirect_std restore_std close_parent_ends close_child_ends
    start_child
end_left_open = (refl, refl)
