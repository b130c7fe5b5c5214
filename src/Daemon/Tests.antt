-- ===== src/Daemon/Tests.antt =====
-- A small system, and the theorems on jsvc-unix.c at runs in it.
use boundary_event_sdk.Prelude.{
  ℕ, ◌+◌, ◌/◌, ◌≤◌, ◌≡◌, refl, true, false, ◌||◌, Option, none, some, List, [], ◌∷◌, Bytes, codes,
  str_eq, str_eq_refl, ◌==◌, if◌then◌else◌, pos, negsuc, arith, is_some, inl, ◌⊎◌,
}
use boundary_event_sdk.Text.{decimal, print_fuel, atoi, to_int, strtol}
use boundary_event_sdk.Arguments.{ArgData}
use boundary_event_sdk.Daemon.Kernel.{Kernel, Opened, opened, exited, signaled, sigterm}
use boundary_event_sdk.Daemon.Signals.{Signal}
use boundary_event_sdk.Daemon.Signals.Requests.{request}
use boundary_event_sdk.Daemon.Controller.{Round, child_ends, run_controller}
use boundary_event_sdk.Daemon.Controller.Rounds.{
  outcome, last_round, run_controller-outcome, Spaced, start_times, run_controller-Spaced,
}
use boundary_event_sdk.Daemon.Controller.Deletions.{
  deletions, expected, played, run_controller-deletions,
}
use boundary_event_sdk.Daemon.Child.{Service, child, run_service}
use boundary_event_sdk.Daemon.Child.Serving.{AllSucceed, child_serves, final_code, concat}
use boundary_event_sdk.Daemon.Wait.{
  look, look_pidf, look_jvm, ready, wait_loop, wait_child, tries, interval, stop_child, stop_loop,
  is_positive,
}
use boundary_event_sdk.Daemon.Wait.Ready.{Up, wait_child-Up, stop_child-gone}
use boundary_event_sdk.Daemon.Wait.Bound.{Clock, wait_child-time}
use boundary_event_sdk.Daemon.Directories.{mkdir1_fuel}
use boundary_event_sdk.Daemon.Directories.Total.{mkdir1_fuel_total}
use boundary_event_sdk.Daemon.PidFile.{
  read_pid, check_pid, check_opened, open_pidf, write_own, running, get_pidf, check_tmp_file,
}
use boundary_event_sdk.Daemon.PidFile.Roundtrip.{Laws, Unwritten, Refused, check_pid_excludes}

record System : Type 0 where
  files : Bytes → Option Bytes
  clock : ℕ

abbrev put : Bytes → Bytes → System → System
put path file s = record s { files = λ p. if str_eq p path then some file else s.files p }

abbrev open_or_create : Bytes → System → Opened × System
open_or_create path s = elim (s.files path) [
  | none ↦ (opened [], put path [] s)
  | some file ↦ (opened file, s)
]

-- Processes 0 (the caller's own group) and 42 (the caller) are there; a signal to 42 ends the service,
-- whose files go.
abbrev box : Kernel
box = record {
  World = System;
  getpid = λ s. 42;
  alive = λ s pid. elim pid [ pos n ↦ n == 0 || n == 42 | negsuc n ↦ false ];
  open_rw = open_or_create;
  content = λ path s. s.files path;
  write = λ path file s. (true, put path file s);
  unlink = λ path s. record s { files = λ p. if str_eq p path then none else s.files p };
  mkdir = λ path perms s. (none, s);
  kill = λ pid sig s. record s { files = λ p. none };
  sleep = λ n s. record s { clock = s.clock + n };
  reap = λ pid s. (none, s);
}

abbrev options : ArgData
options = record {
  pidf = codes "/run/jsvc.pid";
  user_name = none;
  name = none;
  home_path = none;
  working_dir = codes "/";
  opts = [];
  clas = none;
  args = [];
  dtch = true;
  vers = false;
  vershow = false;
  help_page = false;
  chck = false;
  stop_running = false;
  wait_time = pos 0;
  install_service = false;
  remove_service = false;
  run_service = false;
  out_file = codes "/dev/null";
  err_file = codes "/dev/null";
  proc_name = codes "jsvc.exec";
  redirectstdin = true;
  umask_bits = pos 0o77;
  log_debug = false;
}

abbrev empty : System
empty = record { files = λ p. none; clock = 0 }

-- A longer pid of a process that is gone
abbrev stale : System
stale = put (codes "/run/jsvc.pid") (codes "31999\n") empty

opened-known :
    (path : Bytes) (s : System) (file : Bytes)
    → s.files path ≡ some file
    → open_or_create path s ≡ (opened file, s)
opened-known path s file h = ground (arith, h)

laws : Laws box
laws = record {
  content-write = λ path file w ok. rw (str_eq_refl path) refl;
  open_rw-content = λ path file w h. inl (opened-known path w file h);
  getpid-write = λ path file w. refl;
  alive-getpid = λ w. refl;
  getpid-bound = λ w. omega arith;
}

-- What `check_pid` leaves of the stale file: "42\n99\n".
abbrev claimed_system : System
claimed_system = put (codes "/run/jsvc.pid") (codes "42\n99\n") stale

check_pid-stale : check_pid box options stale ≡ (pos 0, claimed_system)
unfolding check_pid check_opened open_pidf write_own read_pid decimal print_fuel atoi to_int strtol
    str_eq
check_pid-stale = refl

check_pid_excludes_example :
    Unwritten box options stale claimed_system
    ⊎ ((check_pid box options claimed_system ≡ (pos 122, claimed_system))
        ⊎ ((check_pid box options claimed_system ≡ (negsuc 0, claimed_system))
            × Refused box (options.pidf) claimed_system))
check_pid_excludes_example =
    check_pid_excludes box options options stale claimed_system claimed_system laws (refl, refl)
      check_pid-stale refl refl refl

mkdir1_fuel_total_example : is_some (mkdir1_fuel box 5 (codes "/a/b") 493 empty) ≡ true
mkdir1_fuel_total_example = mkdir1_fuel_total box 5 (codes "/a/b") 493 empty (omega arith)

abbrev sleeps : List (List Signal)
sleeps = [] ∷ (Signal.usr1 ∷ []) ∷ (Signal.hup ∷ Signal.term ∷ []) ∷ []

-- A reload, a crash, and a clean end
abbrev rounds : List Round
rounds =
    child_ends 5 60 (exited 123) ∷ child_ends 100 60 (signaled 11) ∷ child_ends 7 60 (exited 0) ∷ []

run_controller-outcome_example :
    (run_controller options 0 rounds).result ≡ outcome (last_round rounds)
run_controller-outcome_example = run_controller-outcome options 0 rounds

run_controller-Spaced_example : Spaced 0 (start_times (run_controller options 0 rounds).actions)
run_controller-Spaced_example =
    run_controller-Spaced options 0 0 rounds (omega arith, (omega arith, (omega arith, tt)))
      (omega arith)

run_controller-deletions_example :
    deletions (run_controller options 0 rounds).actions ≡ expected options (played rounds)
run_controller-deletions_example = run_controller-deletions options 0 rounds

abbrev good_service : Service
good_service = record {
  linuxset_user_group = true;
  java_init = true;
  java_version = true;
  java_check = true;
  java_load = true;
  set_caps = true;
  java_start = true;
  java_stop = true;
  jvm_destroy = true;
}

all_succeed : AllSucceed good_service
all_succeed = record {
  switches = refl;
  inits = refl;
  versions = refl;
  loads = refl;
  drops = refl;
  starts = refl;
  stops = refl;
  destroys = refl;
}

child_serves_example :
    (child box good_service options sleeps stale).0.code ≡ final_code (request (concat sleeps))
child_serves_example =
    child_serves box good_service options sleeps stale claimed_system all_succeed refl refl
      check_pid-stale

abbrev as_tomcat : ArgData
as_tomcat = record options { user_name = some (codes "tomcat") }

-- The service has come up.
abbrev up : System
up = put (codes "/tmp/42.jsvc_up") [] claimed_system

wait_child-up : wait_child box options 30 (pos 41) up ≡ (0, record up { clock = 1 })
unfolding wait_child wait_loop tries interval check_tmp_file look look_pidf look_jvm ready running
    get_pidf read_pid decimal print_fuel atoi to_int strtol str_eq
wait_child-up = refl

wait_child-Up_example : Up box options (pos 41) up (record up { clock = 1 })
wait_child-Up_example =
    wait_child-Up box options 30 (pos 41) up (record up { clock = 1 }) wait_child-up

stop_child-up : stop_child box options up ≡ (pos 0, record { files = λ p. none; clock = 1 })
unfolding stop_child stop_loop running get_pidf read_pid atoi to_int strtol str_eq
stop_child-up = refl

stop_child-gone_example :
    (is_positive (get_pidf box options up) ≡ true)
    × (stop_loop box options 60 (box.kill (get_pidf box options up) sigterm up)
        ≡ (pos 0, record { files = λ p. none; clock = 1 }))
    × (is_positive (get_pidf box options (record { files = λ p. none; clock = 1 })) ≡ false)
stop_child-gone_example =
    stop_child-gone box options up (record { files = λ p. none; clock = 1 }) stop_child-up

clock : Clock box (λ s. s.clock)
clock = record { time-sleep = λ n w. refl; time-reap = λ pid w. refl }

wait_child-time_example :
    (wait_child box options 30 (pos 41) empty).1.clock ≤ empty.clock + (30 + 30 / 10 + 10)
wait_child-time_example = wait_child-time box (λ s. s.clock) options 30 (pos 41) empty clock
