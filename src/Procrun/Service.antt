-- ===== src/Procrun/Service.antt =====
-- The service as the service control manager (SCM) sees it: the reports, `serviceMain` and the control
-- handler of src/native/windows/apps/prunsrv/prunsrv.c. `SetServiceStatus` is the report itself; what
-- the system and the JVM answer is a parameter.
pub mod Start
pub mod Stop
pub mod Reports
pub mod Endings
pub mod Stuck
pub mod Tests
use boundary_event_sdk.Prelude.{
  ℕ, zero, suc, ◌+◌, ◌*◌, ◌%◌, ◌^◌, Bool, true, false, not, ◌&&◌, ◌||◌, Option, none, some, List,
  [], ◌∷◌, ◌==◌, if◌then◌else◌,
}
use boundary_event_sdk.Procrun.Service.Start.{Starting, service_start}
use boundary_event_sdk.Procrun.Service.Stop.{Ending, untouched, exiting, closed, waited_for}

pub data RunState : Type 0 where
  start_pending running stop_pending stopped : RunState

-- `SERVICE_STATUS`; `accepts` says that the stop and the shutdown control are accepted.
pub record Status : Type 0 where
  pub state : RunState
  pub accepts : Bool
  pub exit_code : ℕ
  pub check_point : ℕ
  pub wait_hint : ℕ
  pub specific : ℕ

-- `_service_mode`, `_service_status_handle`, `dwCheckPoint`, `_service_status` and the reports so far,
-- the last one first
pub record Service : Type 0 where
  pub service_mode : Bool
  pub registered : Bool
  pub next_check : ℕ
  pub status : Status
  pub reported : List Status

abbrev pub is_running : RunState → Bool
is_running running = true
is_running _ = false

-- Neither running nor stopped.
abbrev pub is_pending : RunState → Bool
is_pending start_pending = true
is_pending stop_pending = true
is_pending _ = false

-- The status that a report sends.
unfoldable pub next_status : RunState → (code hint specific check : ℕ) → Status
next_status state code hint specific check = record {
  state = state;
  accepts = is_running state;
  exit_code = code;
  check_point = if is_pending state then check else 0;
  wait_hint = hint;
  specific = specific;
}

-- `reportServiceStatusE`
unfoldable pub report : RunState → (code hint specific : ℕ) → Service → Service
unfolding next_status
report state code hint specific s =
    if s.service_mode && s.registered
    then (let sent = next_status state code hint specific (s.next_check) in
        record s {
          next_check = if is_pending state then (s.next_check + 1) % 2 ^ 32 else s.next_check;
          status = sent;
          reported = sent ∷ s.reported;
        })
    else s

abbrev pub no_error : ℕ
no_error = 0

-- `ERROR_SERVICE_SPECIFIC_ERROR`
abbrev pub specific_error : ℕ
specific_error = 1066

-- `reportServiceStatusStopped`
unfoldable pub report_stopped : (code : ℕ) → Service → Service
unfolding report
report_stopped code s =
    if code == 0 then report stopped no_error 0 0 s else report stopped specific_error 0 code s

-- What happens while the worker runs: a control of the SCM, and the reports of the stop thread, with the
-- time that it gives the worker (`serviceStop`) or for a `System.exit`.
pub data Event : Type 0 where
  control_stop control_shutdown control_interrogate control_other : Event
  stop_waits : (timeout : ℕ) → Event
  stop_exits : Event

-- `service_ctrl_handler` and the reports of `serviceStop`
unfoldable pub handle : Event → Service → Service
unfolding report
handle control_stop s = report stop_pending no_error (3 * 1000) 0 s
handle control_shutdown s = report stop_pending no_error (3 * 1000) 0 s
handle control_interrogate s = report (s.status.state) (s.status.exit_code) (s.status.wait_hint) 0 s
handle control_other s = s
handle (stop_waits timeout) s = report stop_pending no_error timeout 0 s
handle stop_exits s = report stop_pending no_error (20 * 1000) 0 s

-- The reports of the stop thread, by what it does with the worker.
unfoldable pub stop_events : Ending → List Event
stop_events untouched = []
stop_events exiting = stop_exits ∷ []
stop_events closed = stop_waits 0 ∷ []
stop_events (waited_for timeout) = stop_waits timeout ∷ []

unfoldable pub handle_all : List Event → Service → Service
unfolding handle
handle_all [] s = s
handle_all (e ∷ es) s = handle_all es (handle e s)

-- The functions that `_onexit` registers: `onExitStop`, before the stop in the JVM, and `onExitStart`, before the
-- start in it
pub data Hook : Type 0 where
  on_exit_stop on_exit_start : Hook

-- What `serviceMain` meets: whether the Java that `java` modes need is found, whether the handler is
-- registered, how the start goes, what happens until the worker ends, whether the stop thread has made
-- the shutdown event, and the exit code of the JVM. The stop thread and the SCM go on when the worker has ended:
-- `between` is what comes between the two reports of the wait for the threads, `meanwhile` before the last report
-- of `serviceMain`, and `after` behind it. `hooks` run at the exit of the process.
pub record Run : Type 0 where
  pub java_found : Bool
  pub registers : Bool
  pub start : Starting
  pub events : List Event
  pub shutdown_event : Bool
  pub vm_exit_code : ℕ
  pub between : List Event
  pub meanwhile : List Event
  pub after : List Event
  pub hooks : List Hook

abbrev pub one_minute : ℕ
one_minute = 60 * 1000

-- The reports while the threads of the JVM end.
unfoldable pub wait_threads : (shutdown_event : Bool) → (between : List Event) → Service → Service
unfolding report handle_all
wait_threads true between s =
    report stop_pending no_error one_minute 0
      (handle_all between (report stop_pending no_error one_minute 0 s))
wait_threads false between s = report stop_pending no_error 0 0 s

-- From the end of the worker on.
unfoldable pub finish : Run → Service → Service
unfolding wait_threads handle_all report_stopped
finish run s =
    report_stopped (run.vm_exit_code)
      (handle_all (run.meanwhile) (wait_threads (run.shutdown_event) (run.between) s))

-- The service and `gExitval` that `serviceMain` leaves.
unfoldable pub serve : Run → Service → Service × ℕ
unfolding report report_stopped handle_all finish service_start
serve run s =
    let s1 = report start_pending no_error 3000 0 s in
    let rc = (service_start (run.start)).rv in
    if rc == 0
    then (finish run (handle_all (run.events) (report running no_error 0 0 s1)), 0)
    else (report_stopped rc s1, rc)

-- The status before the first report. `SERVICE_CONTROL_INTERROGATE` is no flag of accepted controls: it
-- has the value of `SERVICE_ACCEPT_SHUTDOWN`. It is sent by no report.
abbrev pub initial : (service_mode : Bool) → Service
initial service_mode = record {
  service_mode = service_mode;
  registered = false;
  next_check = 1;
  status = record {
    state = start_pending;
    accepts = false;
    exit_code = 0;
    check_point = 0;
    wait_hint = 0;
    specific = 0;
  };
  reported = [];
}

-- `serviceMain`
unfoldable pub service_main : Run → Service → Service × ℕ
unfolding serve report_stopped
service_main run s =
    if not (run.java_found)
    then (report_stopped 0 s, 0)
    else if not (s.service_mode)
    then serve run s
    else if run.registers
    then serve run (record s { registered = true })
    else (report_stopped 0 s, 0)

-- `onExitStop` and `onExitStart`
unfoldable pub exit_hook : (vm_exit_code : ℕ) → Hook → Service → Service
unfolding report_stopped
exit_hook code on_exit_stop s = if s.service_mode then report_stopped 0 s else s
exit_hook code on_exit_start s = if s.service_mode && (code == 0) then report_stopped 0 s else s

unfoldable pub run_hooks : (vm_exit_code : ℕ) → List Hook → Service → Service
unfolding exit_hook
run_hooks code [] s = s
run_hooks code (h ∷ hs) s = run_hooks code hs (exit_hook code h s)

-- The process from `serviceMain` to its exit, with the value that `serviceMain` leaves
unfoldable pub service_process : Run → Service → Service × ℕ
unfolding service_main handle_all run_hooks
service_process run s =
    let (s1, rv) = service_main run s in
    (run_hooks (run.vm_exit_code) (run.hooks) (handle_all (run.after) s1), rv)
