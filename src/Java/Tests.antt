-- ===== src/Java/Tests.antt =====
-- The library of the VM that is asked for.
use boundary_event_sdk.Prelude.{◌≡◌, refl, true, false, none, some, [], codes, pos, str_eq}
use boundary_event_sdk.Arguments.{ArgData}
use boundary_event_sdk.Home.Tests.{found_home}
use boundary_event_sdk.Java.{java_library, find_named}

abbrev ask_server : ArgData
ask_server = record {
  pidf = codes "/var/run/jsvc.pid";
  user_name = none;
  name = some (codes "server");
  home_path = some (codes "/j");
  working_dir = codes "/";
  opts = [];
  clas = some (codes "Main");
  args = [];
  dtch = true;
  vers = false;
  vershow = false;
  help_page = false;
  chck = false;
  stop_running = false;
  wait_time = pos 0;
  install_service = false;
  remove_service = false;
  run_service = false;
  out_file = codes "/dev/null";
  err_file = codes "/dev/null";
  proc_name = codes "jsvc.exec";
  redirectstdin = true;
  umask_bits = pos 0o77;
  log_debug = false;
}

server-library : java_library ask_server found_home ≡ some (codes "/j/lib/amd64/server/libjvm.so")
unfolding java_library find_named str_eq
server-library = refl
