-- ===== src/Daemon/Output/Targets.antt =====
-- Where the output goes.
use boundary_event_sdk.Prelude.{◌≡◌, Bool, true, false, ◌&&◌, Bytes, codes, str_eq, arith}
use boundary_event_sdk.Daemon.Output.{
  dev_null, at_end, out_pipe, Streams, Answers, to_output, to_errors, to_syslog, loc_freopen,
  redirect_output, redirect_errors, start_logger, join_errors, join_output, redirect_input,
  set_output,
}

-- The name of a file, none of the words with a meaning of their own
pub record IsFile (name : Bytes) : Type 0 where
  pub no_output : str_eq name to_output ≡ false
  pub no_errors : str_eq name to_errors ≡ false
  pub no_syslog : str_eq name to_syslog ≡ false

module _ (a : Answers) (log_debug redirectstdin : Bool) (outfile errfile : Bytes)
    (s : Streams) where
  -- Unless the launcher is debugged with the errors at /dev/null, output and errors that are given two
  -- files that can be opened go to the ends of these, and no logger is started.
  pub set_output-files :
      log_debug && str_eq errfile (codes "/dev/null") ≡ false
      → IsFile outfile
      → IsFile errfile
      → a.opens outfile ≡ true
      → a.opens errfile ≡ true
      → ((set_output a log_debug outfile errfile redirectstdin s).output ≡ at_end outfile)
        × ((set_output a log_debug outfile errfile redirectstdin s).errors ≡ at_end errfile)
        × ((set_output a log_debug outfile errfile redirectstdin s).logger ≡ s.logger)
  unfolding set_output redirect_input redirect_output redirect_errors join_errors join_output
      start_logger loc_freopen
  set_output-files plain o e open_o open_e = ground arith

-- If the errors are sent to the output and the output to a file that can be opened, both go to the end
-- of that file.
pub set_output-joined :
    (a : Answers) (log_debug redirectstdin : Bool) (outfile : Bytes) (s : Streams)
    → IsFile outfile
    → a.opens outfile ≡ true
    → ((set_output a log_debug outfile to_output redirectstdin s).output ≡ at_end outfile)
      × ((set_output a log_debug outfile to_output redirectstdin s).errors ≡ at_end outfile)
unfolding set_output redirect_input redirect_output redirect_errors join_errors join_output
    start_logger loc_freopen str_eq
set_output-joined a log_debug true outfile s o open_o = ground arith
set_output-joined a log_debug false outfile s o open_o = ground arith

-- If the output goes to the system's log and the errors to the output, the errors are lost: they are
-- joined to the output while that is at /dev/null, before the pipe to the logger takes its place.
pub set_output_loses :
    (a : Answers) (log_debug redirectstdin : Bool) (s : Streams)
    → a.pipe_output ≡ true
    → a.forks ≡ true
    → ((set_output a log_debug to_syslog to_output redirectstdin s).output ≡ out_pipe)
      × ((set_output a log_debug to_syslog to_output redirectstdin s).errors ≡ dev_null)
unfolding set_output redirect_input redirect_output redirect_errors join_errors join_output
    start_logger loc_freopen str_eq
set_output_loses a true redirectstdin s piped forked = ground arith
set_output_loses a false redirectstdin s piped forked = ground arith
