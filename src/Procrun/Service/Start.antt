-- ===== src/Procrun/Service/Start.antt =====
-- `serviceStart` of src/native/windows/apps/prunsrv/prunsrv.c, over what the calls answer.
use boundary_event_sdk.Prelude.{
  ℕ, ◌≡◌, Bool, true, false, not, ◌&&◌, ◌||◌, if◌then◌else◌, arith, ◌==◌,
}

-- The checks and calls in their order. `has_worker` is a worker from before; `process_*` are the calls
-- that prepare and execute a child process.
pub record Starting : Type 0 where
  pub has_worker : Bool
  pub pid_file : Bool
  pub pid_file_exists : Bool
  pub pid_file_deleted : Bool
  pub jni_startup : Bool
  pub java_created : Bool
  pub java_started : Bool
  pub has_image : Bool
  pub process_created : Bool
  pub process_executable : Bool
  pub process_arguments : Bool
  pub process_path : Bool
  pub process_executed : Bool

-- The return value, whether `gWorker` is a valid handle, and whether the pid file is created.
pub record Started : Type 0 where
  pub rv : ℕ
  pub worker : Bool
  pub pid_written : Bool

abbrev failed : ℕ → Started
failed rv = record { rv = rv; worker = false; pid_written = false }

unfoldable pub started : Starting → Started
started e = record { rv = 0; worker = true; pid_written = e.pid_file }

unfoldable pub start_java : Starting → Started
unfolding started
start_java e =
    if not (e.java_created) then failed 1 else if not (e.java_started) then failed 4 else started e

unfoldable pub start_process : Starting → Started
unfolding started
start_process e =
    if not (e.has_image) || not (e.process_created)
    then failed 1
    else if not (e.process_executable)
    then failed 2
    else if not (e.process_arguments)
    then failed 3
    else if not (e.process_path)
    then failed 4
    else if not (e.process_executed)
    then failed 5
    else started e

-- `serviceStart`; with a worker from before it returns `TRUE`, which is 1.
unfoldable pub service_start : Starting → Started
unfolding start_java start_process
service_start e =
    if e.has_worker
    then record { rv = 1; worker = true; pid_written = false }
    else if e.pid_file && e.pid_file_exists && not (e.pid_file_deleted)
    then failed 1
    else if e.jni_startup
    then start_java e
    else start_process e

-- Without a worker from before, the start returns 0 exactly when it leaves one.
pub service_start-worker :
    (e : Starting) → e.has_worker ≡ false → ((service_start e).rv == 0) ≡ (service_start e).worker
unfolding service_start start_java start_process started
service_start-worker e h = ground arith
