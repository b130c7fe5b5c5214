-- ===== src/Daemon/Output.antt =====
-- `set_output` and `loc_freopen` of src/native/unix/native/jsvc-unix.c: where the three standard streams go.
pub mod Targets
mod Tests
use boundary_event_sdk.Prelude.{
  Bool, true, false, not, ◌&&◌, ◌||◌, Bytes, codes, str_eq, if◌then◌else◌,
}

-- Where a stream goes: where it went when the program was started (1 and 2 are told apart), to
-- /dev/null, to the end of a file, or through a pipe to the logger process.
pub data Target : Type 0 where
  first_output : Target
  first_errors : Target
  first_input : Target
  dev_null : Target
  at_end : Bytes → Target
  out_pipe : Target
  err_pipe : Target

pub record Streams : Type 0 where
  pub input : Target
  pub output : Target
  pub errors : Target
  -- `log_stdout_syslog_flag`, `log_stderr_syslog_flag`, and that `logger_pid` is set
  pub stdout_syslog : Bool
  pub stderr_syslog : Bool
  pub logger : Bool

-- What the system answers: which files can be opened for appending, with their directories made if
-- need be, and whether the pipes and the logger process can be had.
pub record Answers : Type 0 where
  pub opens : Bytes → Bool
  pub pipe_output : Bool
  pub pipe_errors : Bool
  pub forks : Bool

abbrev pub to_output : Bytes
to_output = codes "&1"

abbrev pub to_errors : Bytes
to_errors = codes "&2"

abbrev pub to_syslog : Bytes
to_syslog = codes "SYSLOG"

module _ (a : Answers) where
  -- "Unable to redirect" leaves the stream as it was.
  unfoldable pub loc_freopen : Bytes → Target → Target
  loc_freopen file t = if a.opens file then at_end file else t

  unfoldable pub redirect_output : (outfile : Bytes) → Streams → Streams
  redirect_output outfile s =
      if str_eq outfile to_syslog
      then record s { output = dev_null; stdout_syslog = s.stdout_syslog || a.pipe_output }
      else if str_eq outfile to_errors || str_eq outfile to_output
      then s
      else record s { output = loc_freopen outfile (s.output) }

  unfoldable pub redirect_errors : (errfile : Bytes) → Streams → Streams
  redirect_errors errfile s =
      if str_eq errfile to_syslog
      then record s { errors = dev_null; stderr_syslog = s.stderr_syslog || a.pipe_errors }
      else if str_eq errfile to_output || str_eq errfile to_errors
      then s
      else record s { errors = loc_freopen errfile (s.errors) }

  -- "Parent process": the pipes take the places of the streams.
  unfoldable pub start_logger : (piped_output piped_errors : Bool) → Streams → Streams
  start_logger piped_output piped_errors s =
      if (piped_output || piped_errors) && a.forks
      then record s {
        output = if piped_output then out_pipe else s.output;
        errors = if piped_errors then err_pipe else s.errors;
        logger = true;
      }
      else s

-- `dup2(1, 2)`, and `dup2(2, 1)`
unfoldable pub join_errors : (outfile errfile : Bytes) → Streams → Streams
join_errors outfile errfile s =
    if str_eq errfile to_output && not (str_eq outfile to_output)
    then record s { errors = s.output }
    else s

unfoldable pub join_output : (outfile errfile : Bytes) → Streams → Streams
join_output outfile errfile s =
    if str_eq outfile to_errors && not (str_eq errfile to_errors)
    then record s { output = s.errors }
    else s

unfoldable pub redirect_input : (redirectstdin : Bool) → Streams → Streams
redirect_input redirectstdin s = if redirectstdin then record s { input = dev_null } else s

unfoldable pub set_output :
    Answers
    → (log_debug : Bool) → (outfile errfile : Bytes) → (redirectstdin : Bool) → Streams
    → Streams
set_output a log_debug outfile errfile redirectstdin s =
    let s1 = redirect_input redirectstdin s in
    let s2 = redirect_errors a errfile (redirect_output a outfile s1) in
    let s3 = join_output outfile errfile (join_errors outfile errfile s2) in
    if log_debug && str_eq errfile (codes "/dev/null")
      || str_eq outfile to_output && str_eq errfile to_errors
    then s1
    else start_logger a (str_eq outfile to_syslog && a.pipe_output)
        (str_eq errfile to_syslog && a.pipe_errors) s3
