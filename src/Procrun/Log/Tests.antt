-- ===== src/Procrun/Log/Tests.antt =====
-- The log on small inputs.
use boundary_event_sdk.Prelude.{
  ℕ, ◌+◌, ◌*◌, ◌%◌, ◌^◌, ◌≡◌, refl, false, some, [], ◌∷◌, codes, arith,
}
use boundary_event_sdk.Text.{decimal}
use boundary_event_sdk.Procrun.Log.{
  Time, LogFile, opens, wrote, flushed, closed, Windows, info, error, rotated_file, date_text,
  day_extension, time_extension, pad_zeros, rotated_name, too_early, log_rotate,
}
use boundary_event_sdk.Procrun.Log.Writing.{
  Call, Moment, after_separator, base_name, cut_end, trim_line, place_of, message_of, stamp,
  place_text, thread_text, line_events, write_line, log_write,
}
use boundary_event_sdk.Procrun.Log.Rotation.{Kept, Fits, log_run, log_run-Kept}

abbrev windows : Windows
windows = record {
  ticks = λ t. ((t.hour * 60 + t.minute) * 60 + t.second) * 10000000 % 2 ^ 63;
  system_text = λ n. codes "Access is denied.\r\n";
  null_text = [];
}

abbrev at_minute : ℕ → Time
at_minute n = record { year = 2024; month = 1; day = 2; hour = 3; minute = n; second = 5 }

abbrev log : LogFile
log = record {
  handle = some 7;
  level = info;
  rotate = 60;
  time = at_minute 0;
  path = codes "C:\\logs";
  prefix = codes "jsvc";
  file = codes "C:\\logs\\jsvc.log";
}

abbrev denied : Call
denied = record {
  level = error;
  stamped = false;
  source = some (b's', codes "rc/service.c");
  line = 12;
  text = some (codes "Failed\n");
  err = 5;
  thread = 42;
}

abbrev late : Moment
late = (at_minute 2, some 8)

rotated_then_written :
    (log_write false windows denied late late log).2
    ≡ opens (at_minute 2) (codes "C:\\logs\\jsvc.2024-01-02.030205.log") (some 8)
      ∷ closed 7
      ∷ wrote 8 (codes "[error] ")
      ∷ wrote 8 (codes "[   42] ")
      ∷ wrote 8 (codes "Failed")
      ∷ wrote 8 (codes "\r\n")
      ∷ flushed 8
      ∷ wrote 8 (codes "[error] ")
      ∷ wrote 8 (codes "[   42] ")
      ∷ wrote 8 (codes "Access is denied.")
      ∷ wrote 8 (codes "\r\n")
      ∷ flushed 8
      ∷ []
unfolding log_write write_line line_events log_rotate too_early rotated_file rotated_name
    time_extension date_text pad_zeros place_of base_name after_separator message_of trim_line
    cut_end thread_text stamp place_text day_extension decimal
rotated_then_written = refl

windows-Fits : Fits windows log
windows-Fits = ((λ t. omega arith), omega arith)

log_run-Kept_example :
    Kept windows log 7 (log_run windows ((denied, late, late) ∷ (denied, late, late) ∷ []) log)
log_run-Kept_example =
    log_run-Kept windows ((denied, late, late) ∷ (denied, late, late) ∷ []) log 7 windows-Fits refl
