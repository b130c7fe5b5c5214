-- ===== src/Daemon/Child.antt =====
-- `child` of src/native/unix/native/jsvc-unix.c, the process that runs the JVM, as it is built on Linux.
-- What it calls on the way is listed in its order; `perform` gives what these calls do to the system.
pub mod Serving
pub mod Privileges
use boundary_event_sdk.Prelude.{
  ℕ, Bool, true, false, not, ◌&&◌, ◌||◌, Option, none, some, List, [], ◌∷◌, ◌++◌, ◌==◌,
  if◌then◌else◌, ℤ, pos, negsuc, is_some,
}
use boundary_event_sdk.Arguments.{ArgData}
use boundary_event_sdk.Daemon.Kernel.{Kernel}
use boundary_event_sdk.Daemon.PidFile.{check_pid, create_tmp_file, remove_tmp_file, is_negative}
use boundary_event_sdk.Daemon.Signals.{Signal, Flags, clear, handle_all}

-- What the functions of java.c and the changes of user answer: `true` is success.
pub record Service : Type 0 where
  pub linuxset_user_group : Bool
  pub java_init : Bool
  pub java_version : Bool
  pub java_check : Bool
  pub java_load : Bool
  pub set_caps : Bool
  pub java_start : Bool
  pub java_stop : Bool
  pub jvm_destroy : Bool

pub data Call : Type 0 where
  switch_user : Call
  init : Call
  version : Call
  check : Call
  load : Call
  drop_caps : Call
  restore_umask : Call
  start : Call
  install_handlers : Call
  create_tmp : Call
  set_output : Call
  custom_signal : Call
  remove_tmp : Call
  stop : Call
  destroy : Call
  destroy_vm : ℕ → Call

-- The calls made, and what `child` returns; `none`: it is still serving.
pub record Trace : Type 0 where
  pub calls : List Call
  pub code : Option ℤ

abbrev pub return_code : ℤ → Trace
return_code n = record { calls = []; code = some n }

-- One call; `return bad` if it fails, and otherwise the rest
abbrev pub try : Call → (ok : Bool) → (bad : ℤ) → Trace → Trace
try c ok bad rest = record {
  calls = c ∷ (if ok then rest.calls else []);
  code = if ok then rest.code else some bad;
}

abbrev pub after : List Call → Trace → Trace
after cs rest = record { calls = cs ++ rest.calls; code = rest.code }

-- The loop `while (!stopping)`: a round for each `sleep(60)`, with the signals that arrive in it.
pub record Served : Type 0 where
  pub calls : List Call
  pub flags : Option Flags

abbrev pub reaction : Flags → List Call
reaction f =
    (if f.doreopen then set_output ∷ [] else []) ++ (if f.dosignal then custom_signal ∷ [] else [])

unfoldable pub signal_loop : List (List Signal) → Flags → Served
signal_loop [] f = record { calls = []; flags = if f.stopping then some f else none }
signal_loop (sleep ∷ sleeps) f =
    let woken = handle_all sleep f in
    let rest = signal_loop sleeps (record woken { doreopen = false; dosignal = false }) in
    if f.stopping
    then record { calls = []; flags = some f }
    else record { calls = reaction woken ++ rest.calls; flags = rest.flags }

module _ (svc : Service) where
  -- "Shutdown or reload requested: exiting"
  unfoldable pub shut_down : (doreload : Bool) → Trace
  shut_down doreload =
      let ret = if doreload then 123 else 0 in
      after (remove_tmp ∷ []) (
        try stop (svc.java_stop) (pos 6) (
          after (destroy ∷ [])
            (try (destroy_vm ret) (svc.jvm_destroy) (pos 7) (return_code (pos ret)))))

  -- From the handlers on
  unfoldable pub serve : List (List Signal) → Trace
  serve sleeps =
      let waited = signal_loop sleeps clear in
      after (install_handlers ∷ create_tmp ∷ waited.calls) (elim (waited.flags) [
        | none ↦ record { calls = []; code = none }
        | some f ↦ shut_down (f.doreload)
      ])

  -- From "Load the service" on
  unfoldable pub run_service : ArgData → List (List Signal) → Trace
  run_service args sleeps =
      let started =
        after (restore_umask ∷ []) (try start (svc.java_start) (pos 5) (serve sleeps)) in
      try load (svc.java_load) (pos 3)
        (if is_some args.user_name then try drop_caps (svc.set_caps) (pos 4) started else started)

  -- "Do we have to do a check-only initialization?"
  unfoldable pub check_or_run : ArgData → List (List Signal) → Trace
  check_or_run args sleeps =
      if args.chck
      then try check (svc.java_check) (pos 2) (return_code (pos 0))
      else run_service args sleeps

  -- Behind `check_pid`
  unfoldable pub child_body : ArgData → List (List Signal) → Trace
  child_body args sleeps =
      let rest = check_or_run args sleeps in
      try switch_user (svc.linuxset_user_group) (pos 4) (
        try init (svc.java_init) (pos 1) (
          if args.vers
          then try version (svc.java_version) (negsuc 0) (return_code (pos 0))
          else if args.vershow
          then try version (svc.java_version) (pos 7) rest
          else rest))

-- What `check_pid` returned ends a child that would run the service.
unfoldable pub refuses : ArgData → ℤ → Bool
refuses args (pos n) = not args.vers && not args.chck && n == 122
refuses args (negsuc n) = not args.vers && not args.chck

module _ (k : Kernel) where
  open k use {World}

  unfoldable pub perform : List Call → World → World
  perform [] w = w
  perform (create_tmp ∷ cs) w = perform cs (create_tmp_file k w)
  perform (remove_tmp ∷ cs) w = perform cs (remove_tmp_file k w)
  perform (c ∷ cs) w = perform cs w

  unfoldable pub child : Service → ArgData → List (List Signal) → World → Trace × World
  child svc args sleeps w =
      let (ret, w') = check_pid k args w in
      let run = child_body svc args sleeps in
      if refuses args ret then (return_code ret, w') else (run, perform (run.calls) w')
