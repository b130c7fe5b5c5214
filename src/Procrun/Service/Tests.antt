-- ===== src/Procrun/Service/Tests.antt =====
-- A run of the service, and a stop that fails.
use boundary_event_sdk.Prelude.{◌≡◌, ◌≢◌, ◌⊎◌, refl, true, false, [], ◌∷◌, map}
use boundary_event_sdk.Procrun.Service.{
  start_pending, running, stop_pending, stopped, Status, Service, Run, control_stop,
  control_interrogate, stop_waits, initial, service_main, service_process, on_exit_start,
  on_exit_stop, run_hooks, exit_hook, serve, finish, wait_threads, handle_all, handle, report,
  report_stopped, next_status, stop_events,
}
use boundary_event_sdk.Procrun.Service.Start.{Starting, service_start, start_java, started}
use boundary_event_sdk.Procrun.Service.Stop.{Stopping, untouched, service_stop, worker_timeout}
use boundary_event_sdk.Procrun.Service.Stuck.{IsDeaf, gives_up, service_stop-IsDeaf}

abbrev good_start : Starting
good_start = record {
  has_worker = false;
  pid_file = true;
  pid_file_exists = false;
  pid_file_deleted = true;
  jni_startup = true;
  java_created = true;
  java_started = true;
  has_image = true;
  process_created = true;
  process_executable = true;
  process_arguments = true;
  process_path = true;
  process_executed = true;
}

abbrev stopped_run : Run
stopped_run = record {
  java_found = true;
  registers = true;
  start = good_start;
  events = control_interrogate ∷ control_stop ∷ stop_waits 10000 ∷ [];
  shutdown_event = true;
  vm_exit_code = 7;
  between = stop_waits 10000 ∷ [];
  meanwhile = [];
  after = [];
  hooks = on_exit_start ∷ [];
}

-- The reports of that run, the last one first.
reports_of_run :
    map (λ (r : Status). r.state) ((service_main stopped_run (initial true)).0.reported)
    ≡ stopped ∷ stop_pending ∷ stop_pending ∷ stop_pending ∷ stop_pending ∷ stop_pending ∷ running
      ∷ running ∷ start_pending ∷ []
unfolding service_main serve finish wait_threads handle_all handle report report_stopped next_status
    service_start start_java started
reports_of_run = refl

-- The exit hook of the stop reports success behind the code of the JVM.
code_is_lost :
    map
      (λ (r : Status). r.specific)
      ((service_process
        (record stopped_run { hooks = on_exit_stop ∷ []; events = []; between = [] })
        (initial true)).0.reported)
    ≡ 0 ∷ 7 ∷ 0 ∷ 0 ∷ 0 ∷ 0 ∷ []
unfolding service_process run_hooks exit_hook service_main serve finish wait_threads handle_all
    handle report report_stopped next_status service_start start_java started
code_is_lost = refl

-- A stop in the JVM that cannot be created.
abbrev failed_stop : Stopping
failed_stop = record {
  has_worker = true;
  jni_shutdown = true;
  java_created = false;
  java_started = true;
  is_system_class = false;
  has_stop_mode = true;
  has_image = true;
  process_created = true;
  process_executable = true;
  process_arguments = true;
  process_path = true;
  process_executed = true;
  stop_timeout = 10;
  is_shutdown = false;
  max_timeout = 20000;
  wait_result = 0;
}

abbrev heard : Service
heard = record (initial true) { registered = true }

service_stop-IsDeaf_example :
    IsDeaf (handle_all (control_stop ∷ stop_events ((service_stop failed_stop).ending)) heard)
    × (((gives_up failed_stop ≡ true)
          × ((service_stop failed_stop).ending ≡ untouched)
          × ((service_stop failed_stop).event_set ≡ false))
        ⊎ ((gives_up failed_stop ≡ false) × ((service_stop failed_stop).ending ≢ untouched)))
service_stop-IsDeaf_example = service_stop-IsDeaf failed_stop heard (refl, refl) refl

-- A stop timeout of 4294968 seconds wraps to 704 milliseconds.
wrapped_timeout : worker_timeout true (record failed_stop { stop_timeout = 4294968 }) ≡ 704
unfolding worker_timeout
wrapped_timeout = refl
