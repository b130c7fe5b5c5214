-- ===== src/Procrun/Service/Stop.antt =====
-- `serviceStop` of src/native/windows/apps/prunsrv/prunsrv.c, over what the calls answer.
use boundary_event_sdk.Prelude.{
  ℕ, ◌*◌, ◌%◌, ◌^◌, ◌-◌, ltb, Bool, true, false, not, ◌&&◌, ◌||◌, if◌then◌else◌, ◌==◌,
}

-- The checks and calls in their order; `stop_timeout` is the option's `DWORD`.
pub record Stopping : Type 0 where
  pub has_worker : Bool
  pub jni_shutdown : Bool
  pub java_created : Bool
  pub java_started : Bool
  pub is_system_class : Bool
  pub has_stop_mode : Bool
  pub has_image : Bool
  pub process_created : Bool
  pub process_executable : Bool
  pub process_arguments : Bool
  pub process_path : Bool
  pub process_executed : Bool
  pub stop_timeout : ℕ
  pub is_shutdown : Bool
  pub max_timeout : ℕ
  pub wait_result : ℕ

-- What becomes of the worker: nothing is done, it is waited for and then killed, or it is sent
-- `WM_CLOSE`; `exiting` is the stop thread whose `System.exit` ends it.
pub data Ending : Type 0 where
  untouched exiting closed : Ending
  waited_for : (timeout : ℕ) → Ending

pub record Stopped : Type 0 where
  pub rv : ℕ
  pub ending : Ending
  pub event_set : Bool

abbrev pub infinite : ℕ
infinite = 2 ^ 32 - 1

abbrev pub default_timeout : ℕ
default_timeout = 300 * 1000

-- `SO_STOPTIMEOUT * 1000` of two `DWORD`s, and what becomes of it
unfoldable pub worker_timeout : (wait_to_die : Bool) → Stopping → ℕ
worker_timeout wait_to_die e =
    let product = e.stop_timeout * 1000 % 2 ^ 32 in
    let long = if ltb (2 ^ 31 - 1) product then infinite else product in
    let timeout = if wait_to_die && long == 0 then default_timeout else long in
    if e.is_shutdown
    then if ltb timeout (e.max_timeout) then timeout else e.max_timeout
    else timeout

-- From `cleanup` on.
unfoldable pub end_worker : (rv : ℕ) (wait_to_die : Bool) → Stopping → Stopped
unfolding worker_timeout
end_worker rv wait_to_die e =
    let timeout = worker_timeout wait_to_die e in
    if timeout == 0
    then record { rv = rv; ending = closed; event_set = true }
    else record { rv = e.wait_result; ending = waited_for timeout; event_set = true }

abbrev pub given_up : Stopped
given_up = record { rv = 1; ending = untouched; event_set = false }

unfoldable pub stop_java : Stopping → Stopped
unfolding end_worker
stop_java e =
    if not (e.java_created)
    then given_up
    else if not (e.java_started)
    then end_worker 3 true e
    else if e.is_system_class
    then record { rv = 0; ending = exiting; event_set = false }
    else end_worker 0 true e

unfoldable pub stop_process : Stopping → Stopped
unfolding end_worker
stop_process e =
    if not (e.has_image) || not (e.process_created)
    then given_up
    else if not (e.process_executable)
    then end_worker 2 false e
    else if not (e.process_arguments)
    then end_worker 3 false e
    else if not (e.process_path)
    then end_worker 4 false e
    else if not (e.process_executed)
    then end_worker 5 false e
    else end_worker 0 true e

-- `serviceStop`; without a worker it returns `TRUE`.
unfoldable pub service_stop : Stopping → Stopped
unfolding stop_java stop_process end_worker
service_stop e =
    if not (e.has_worker)
    then given_up
    else if e.jni_shutdown
    then stop_java e
    else if e.has_stop_mode
    then stop_process e
    else end_worker 0 false e
