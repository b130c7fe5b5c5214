-- ===== src/Daemon/Main/Tests.antt =====
-- A launcher that detaches itself and starts a controller.
use boundary_event_sdk.Prelude.{
  ◌≡◌, refl, true, false, none, some, List, [], ◌∷◌, Bytes, codes, str_eq, starts_with,
  if◌then◌else◌, pos, ◌+ℤ◌, ◌-ℤ◌, ◌*ℤ◌,
}
use boundary_event_sdk.Text.{strchr, strstr, atoi, strtol, to_int}
use boundary_event_sdk.Replace.Memory.{c_string, strcpy, update, put_bytes}
use boundary_event_sdk.Replace.{replace}
use boundary_event_sdk.Arguments.Options.{classify}
use boundary_event_sdk.Arguments.{ArgData, arguments, parse, parse_loop, apply, defaults, optional}
use boundary_event_sdk.Home.Locations.{location_jvm_cfg, location_jvm_default}
use boundary_event_sdk.Home.{
  Kind, directory, build, checkdir, checkfile, expand, first_file, unusable, find_at, home,
  default_jvm,
}
use boundary_event_sdk.Daemon.Kernel.{Kernel, opened}
use boundary_event_sdk.Daemon.Users.{checkuser}
use boundary_event_sdk.Daemon.Output.{first_input, first_output, first_errors}
use boundary_event_sdk.Daemon.Main.{
  in_child, Surroundings, launch, help_or_go, detach_or_control, control, main,
}
use boundary_event_sdk.Daemon.Main.Checks.{controls, Checked, main-Checked}

-- No system call of the kernel is made in these runs.
abbrev idle : Kernel
idle = record {
  World = Unit {0};
  getpid = λ w. 42;
  alive = λ w pid. false;
  open_rw = λ path w. (opened [], w);
  content = λ path w. none;
  write = λ path file w. (true, w);
  unlink = λ path w. w;
  mkdir = λ path perms w. (none, w);
  kill = λ pid sig w. w;
  sleep = λ n w. w;
  reap = λ pid w. (none, w);
}

abbrev around : Surroundings
around = record {
  os = record { malloc = λ n. true; realloc = λ n. true; glob = λ p. none };
  junk = false;
  files = record {
    stat = λ p. if str_eq p (codes "/j") then directory else Kind.missing;
    content = λ p. none;
    getenv_java_home = none;
    cpu = codes "amd64";
    stack = λ i. 0;
  };
  account = record { passwd = none; trial = none };
  ld_library_path = none;
  self_exe = none;
  executes = true;
  detach = in_child;
  answers = record { opens = λ f. true; pipe_output = true; pipe_errors = true; forks = true };
  streams = record {
    input = first_input;
    output = first_output;
    errors = first_errors;
    stdout_syslog = false;
    stderr_syslog = false;
    logger = false;
  };
  now = 0;
  rounds = [];
}

abbrev words : List Bytes
words = codes "-home" ∷ codes "/j" ∷ codes "Main" ∷ []

main-controls : controls (main idle around (codes "jsvc.exec") words tt).steps ≡ true
unfolding main launch help_or_go detach_or_control control arguments parse parse_loop apply classify
    defaults optional strchr atoi strtol to_int str_eq starts_with checkuser home find_at unusable
    build checkdir checkfile expand first_file default_jvm location_jvm_cfg location_jvm_default
    replace strcpy update put_bytes c_string strstr ◌+ℤ◌ ◌-ℤ◌ ◌*ℤ◌
main-controls = refl

main-Checked_example :
    (args : ArgData) × (arguments around.os around.junk words ≡ some args)
    × Checked idle around (codes "jsvc.exec") args
main-Checked_example = main-Checked idle around (codes "jsvc.exec") words tt main-controls

abbrev read_words : ArgData
read_words = record {
  pidf = codes "/var/run/jsvc.pid";
  user_name = none;
  name = none;
  home_path = some (codes "/j");
  working_dir = codes "/";
  opts = [];
  clas = some (codes "Main");
  args = [];
  dtch = true;
  vers = false;
  vershow = false;
  help_page = false;
  chck = false;
  stop_running = false;
  wait_time = pos 0;
  install_service = false;
  remove_service = false;
  run_service = false;
  out_file = codes "/dev/null";
  err_file = codes "/dev/null";
  proc_name = codes "jsvc.exec";
  redirectstdin = true;
  umask_bits = pos 0o77;
  log_debug = false;
}

words-accepted : arguments around.os around.junk words ≡ some read_words
unfolding arguments parse parse_loop apply classify defaults optional strchr atoi strtol to_int
    str_eq starts_with
words-accepted = refl
