-- ===== src/Procrun/Process/Running.antt =====
-- A child process from its start to its end: `apxProcessExecute`, `__apxProcCreateChildPipes`,
-- `__apxProcessClose`, the `WM_CLOSE` and `WM_QUIT` of `__apxProcessCallback`, and `apxProcessWait`.
pub mod Restored
use boundary_event_sdk.Prelude.{
  ℕ, Bool, true, false, not, ◌&&◌, ◌||◌, Option, none, some, List, [], ◌∷◌, ◌++◌, drop, ◌==◌,
  if◌then◌else◌,
}

-- The standard input, output and error
abbrev pub Std : Type 0
Std = ℕ × ℕ × ℕ

-- `APXPROCESS`: a pipe's end or a handle is `none` while it is `NULL`.
pub record Process : Type 0 where
  pub running : Bool
  pub initialized : Bool
  pub child_inp : Option ℕ
  pub child_out : Option ℕ
  pub child_err : Option ℕ
  pub inp_wr : Option ℕ
  pub out_rd : Option ℕ
  pub err_rd : Option ℕ
  -- `hParentStdSave`, once `bSaveHandles` is set
  pub saved : Option Std
  pub process : Option ℕ
  pub threads : List ℕ

-- What ends the child
pub data Kill : Type 0 where
  exit_called : ℕ → Kill
  terminated : ℕ → Kill

-- The standard handles of this process; the answers to `CreatePipe`, the end to read and the end to write, and
-- to `SetHandleInformation`; the handles that were closed, and the ends of children, the last ones first.
pub record System : Type 0 where
  pub std : Std
  pub pipes : List (Option (ℕ × ℕ))
  pub inherits : List Bool
  pub closed : List ℕ
  pub kills : List Kill

abbrev pub head_or {ℓ} : {A : Type ℓ} → A → List A → A
head_or a [] = a
head_or a (x ∷ xs) = x

-- `SAFE_CLOSE_HANDLE`, but for the variable
unfoldable pub close_handle : Option ℕ → System → System
close_handle none s = s
close_handle (some h) s = record s { closed = h ∷ s.closed }

-- `CreatePipe` and `SetHandleInformation`: the two ends, if the pipe is made, and whether both calls succeed
unfoldable pub make_pipe : System → Option (ℕ × ℕ) × Bool × System
make_pipe s =
    let ends = head_or none s.pipes in
    let set = head_or false s.inherits in
    elim ends [
      | none ↦ (none, false, record s { pipes = drop 1 s.pipes })
      | some e ↦ (some e, set, record s { pipes = drop 1 s.pipes; inherits = drop 1 s.inherits })
    ]

-- A pipe that is not made leaves the ends as they were.
abbrev pub reading : (old : Option ℕ) → Option (ℕ × ℕ) → Option ℕ
reading old none = old
reading old (some e) = some (e.0)

abbrev pub writing : (old : Option ℕ) → Option (ℕ × ℕ) → Option ℕ
writing old none = old
writing old (some e) = some (e.1)

-- A process, whether the work on it goes on, and the system
abbrev pub Step : Type 0
Step = Process × Bool × System

unfoldable pub make_inp : Step → Step
unfolding make_pipe
make_inp (p, going, s) =
    let (e, ok, s') = make_pipe s in
    if going
    then (record p { child_inp = reading p.child_inp e; inp_wr = writing p.inp_wr e }, ok, s')
    else (p, going, s)

unfoldable pub make_out : Step → Step
unfolding make_pipe
make_out (p, going, s) =
    let (e, ok, s') = make_pipe s in
    if going
    then (record p { out_rd = reading p.out_rd e; child_out = writing p.child_out e }, ok, s')
    else (p, going, s)

unfoldable pub make_err : Step → Step
unfolding make_pipe
make_err (p, going, s) =
    let (e, ok, s') = make_pipe s in
    if going
    then (record p { err_rd = reading p.err_rd e; child_err = writing p.child_err e }, ok, s')
    else (p, going, s)

-- `__apxProcCreateChildPipes`
unfoldable pub create_child_pipes : Process → System → Step
unfolding make_inp make_out make_err
create_child_pipes p s = make_err (make_out (make_inp (p, true, s)))

abbrev pub end_or : ℕ → Option ℕ → ℕ
end_or a none = a
end_or a (some h) = h

-- `SAVE_STD_HANDLES`, `REDIRECT_STD_HANDLES` and `RESTORE_STD_HANDLES`
unfoldable pub save_std : Process → System → Process
save_std p s = record p { saved = some (s.std) }

-- An end that is missing is handle 0.
unfoldable pub redirect_std : Process → System → System
redirect_std p s = record s {
  std = (end_or 0 p.child_inp, end_or 0 p.child_out, end_or 0 p.child_err);
}

unfoldable pub restore_std : Process → System → System
restore_std p s = elim (p.saved) [ none ↦ s | some std ↦ record s { std = std } ]

-- The label `cleanup` of `apxProcessExecute`
unfoldable pub close_parent_ends : Process → System → Process × System
unfolding close_handle
close_parent_ends p s = (
  record p { inp_wr = none; out_rd = none; err_rd = none },
  close_handle (p.err_rd) (close_handle (p.out_rd) (close_handle (p.inp_wr) s)),
)

unfoldable pub close_child_ends : Process → System → Process × System
unfolding close_handle
close_child_ends p s = (
  record p { child_inp = none; child_out = none; child_err = none },
  close_handle (p.child_err) (close_handle (p.child_out) (close_handle (p.child_inp) s)),
)

-- What `CreateProcessW` or `CreateProcessAsUserW` answers, the process and its main thread, and the three
-- worker threads
pub record Started : Type 0 where
  pub process : ℕ
  pub main_thread : ℕ
  pub workers : List ℕ

-- `apxProcessExecute` once the pipes are made
unfoldable pub start_child : Option Started → Process → System → Bool × Process × System
unfolding close_child_ends close_parent_ends close_handle
start_child none p s =
    let (p1, s1) = close_child_ends p s in let (p2, s2) = close_parent_ends p1 s1 in (false, p2, s2)
start_child (some c) p s =
    let (p1, s1) = close_child_ends p s in
    (
      true,
      record p1 {
        running = true;
        initialized = true;
        process = some c.process;
        threads = c.workers;
      },
      close_handle (some (c.main_thread)) s1,
    )

-- `apxProcessExecute`
unfoldable pub execute : Option Started → Process → System → Bool × Process × System
unfolding save_std create_child_pipes redirect_std start_child close_parent_ends
execute c p s =
    let (p1, ok, s1) = create_child_pipes (save_std p s) s in
    let (p2, s2) = close_parent_ends p1 s1 in
    if p.initialized
    then (false, p, s)
    else if not ok
    then (false, p2, s2)
    else start_child c p1 (redirect_std p1 s1)

-- What `__apxProcessClose` finds: whether the child is active, ends within a second of the end of its input,
-- is then active; whether its handle can be duplicated, the remote thread made, and the child ends with it
pub record Ending : Type 0 where
  pub active : Bool
  pub ends_by_input : Bool
  pub still_active : Bool
  pub duplicated : Bool
  pub remote : Bool
  pub ends_by_thread : Bool

abbrev pub remote_kills : Ending → ℕ → List Kill
remote_kills e h =
    if not (e.remote)
    then []
    else if e.ends_by_thread
    then exit_called h ∷ []
    else terminated h ∷ exit_called h ∷ []

-- The ends of the child that it tries, the last one first, for the process `h`
unfoldable pub kills_of : Ending → ℕ → List Kill
kills_of e h =
    if not (e.active) || (e.ends_by_input || not (e.still_active))
    then []
    else if e.duplicated
    then remote_kills e h
    else terminated h ∷ []

-- `__apxProcessClose`; the copy of the child's handle and the remote thread's, which it closes too, are left
-- out.
unfoldable pub process_close : Ending → Process → System → Process × System
unfolding close_handle kills_of
process_close e p s =
    let h = end_or 0 (p.process) in
    let s1 = if e.active then close_handle (p.inp_wr) s else s in
    let p1 = if e.active then record p { inp_wr = none } else p in
    let s2 = record s1 { kills = kills_of e h ++ s1.kills } in
    (record p1 { process = none; running = false }, close_handle (p1.process) s2)

abbrev pub close_all : List ℕ → System → System
close_all [] s = s
close_all (h ∷ hs) s = close_all hs (close_handle (some h) s)

-- `__apxProcessCallback` with `WM_CLOSE`, which goes on with `WM_QUIT`; the token, the strings and the environment that it
-- frees are left out.
unfoldable pub on_close : Ending → Process → System → Process × System
unfolding process_close close_parent_ends close_handle restore_std
on_close e p s =
    let (p1, s1) = process_close e p s in
    let p2 = if p.running then p1 else p in
    let s2 = if p.running then s1 else s in
    let (p3, s3) = close_parent_ends p2 (close_handle (p2.process) s2) in
    (
      record p3 { process = none; threads = []; running = false },
      restore_std p3 (close_all (p3.threads) s3),
    )

-- `apxProcessWait`: `timed_out` is what `WaitForMultipleObjects` answers; the result is whether it did.
unfoldable pub process_wait :
    (timed_out kill : Bool) → Ending → Process → System → Bool × Process × System
unfolding on_close
process_wait timed_out kill e p s =
    let (p1, s1) = on_close e p s in
    if not (p.running)
    then (false, p, s)
    else if timed_out && kill
    then (timed_out, p1, s1)
    else (timed_out, p, s)
