-- ===== src/Daemon/Output/Tests.antt =====
-- The theorems on `set_output` at its usual arguments.
use boundary_event_sdk.Prelude.{refl, true, false, codes, str_eq}
use boundary_event_sdk.Daemon.Output.{first_input, first_output, first_errors, Streams, Answers}
use boundary_event_sdk.Daemon.Output.Targets.{IsFile}

abbrev answers : Answers
answers = record { opens = λ file. true; pipe_output = true; pipe_errors = true; forks = true }

abbrev at_first : Streams
at_first = record {
  input = first_input;
  output = first_output;
  errors = first_errors;
  stdout_syslog = false;
  stderr_syslog = false;
  logger = false;
}

out-IsFile : IsFile (codes "/o")
unfolding str_eq
out-IsFile = record { no_output = refl; no_errors = refl; no_syslog = refl }

err-IsFile : IsFile (codes "/e")
unfolding str_eq
err-IsFile = record { no_output = refl; no_errors = refl; no_syslog = refl }
