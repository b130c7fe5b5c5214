-- ===== src/Procrun/Log.antt =====
-- The log file of src/native/windows/src/log.c: its state, its level, its names and their rotation.
pub mod Writing
pub mod Rotation
pub mod Tests
use boundary_event_sdk.Prelude.{
  ℕ, zero, suc, ◌+◌, ◌-◌, ◌*◌, ◌%◌, ◌^◌, Bool, true, false, not, ◌&&◌, ◌||◌, Option, none, some,
  List, [], ◌∷◌, ◌++◌, Bytes, codes, length, ltb, ◌==◌, if◌then◌else◌,
}
use boundary_event_sdk.Text.{decimal}
use boundary_event_sdk.Procrun.Commands.Image.{strlcpy, strlcat}

-- `SYSTEMTIME`
pub record Time : Type 0 where
  pub year : ℕ
  pub month : ℕ
  pub day : ℕ
  pub hour : ℕ
  pub minute : ℕ
  pub second : ℕ

-- `APXLOG_LEVEL_DEBUG` to `APXLOG_LEVEL_ERROR`
pub data Level : Type 0 where
  debug : Level
  info : Level
  warn : Level
  error : Level

abbrev pub rank : Level → ℕ
rank debug = 0
rank info = 1
rank warn = 2
rank error = 3

-- `apx_logfile_st`; `hFile` is `none` while it is no valid handle.
pub record LogFile : Type 0 where
  pub handle : Option ℕ
  pub level : Level
  pub rotate : ℕ
  pub time : Time
  pub path : Bytes
  pub prefix : Bytes
  pub file : Bytes

-- What is done to files: `CreateFileW` at a time for a name with its answer, `WriteFile`, `FlushFileBuffers` and
-- `CloseHandle`.
pub data Event : Type 0 where
  opens : (at_time : Time) → (name : Bytes) → Option ℕ → Event
  wrote : ℕ → Bytes → Event
  flushed : ℕ → Event
  closed : ℕ → Event

-- `SystemTimeToFileTime`, `FormatMessageA` for a code of an error, and what `wsprintfA` prints for a `NULL`
pub record Windows : Type 0 where
  pub ticks : Time → ℕ
  pub system_text : ℕ → Bytes
  pub null_text : Bytes

abbrev pub copies : ℕ → ℕ → Bytes
copies zero c = []
copies (suc n) c = c ∷ copies n c

abbrev pub text_or : Bytes → Option Bytes → Bytes
text_or s none = s
text_or s (some t) = t

-- `%04d` and `%02d`
unfoldable pub pad_zeros : (width n : ℕ) → Bytes
pad_zeros width n = copies (width - length (decimal n)) b'0' ++ decimal n

unfoldable pub date_text : Time → Bytes
unfolding pad_zeros
date_text t =
    pad_zeros 4 t.year ++ codes "-" ++ pad_zeros 2 t.month ++ codes "-" ++ pad_zeros 2 t.day

-- `LOGF_EXT` and `LOGF_EXR`
unfoldable pub day_extension : Time → Bytes
unfolding date_text
day_extension t = codes "." ++ date_text t ++ codes ".log"

unfoldable pub time_extension : Time → (hour minute second : ℕ) → Bytes
unfolding date_text pad_zeros
time_extension t hour minute second =
    codes "."
    ++ date_text t
    ++ codes "."
    ++ pad_zeros 2 hour
    ++ pad_zeros 2 minute
    ++ pad_zeros 2 second
    ++ codes ".log"

abbrev pub max_path : ℕ
max_path = 260

-- `sName` in `logRotate`
unfoldable pub rotated_name : LogFile → Time → Bytes
unfolding day_extension time_extension
rotated_name lf t =
    b'\\'
    ∷ (lf.prefix
        ++ (if ltb lf.rotate 86400
            then time_extension t (t.hour) (t.minute) (t.second)
            else day_extension t))

-- `szFile` after a rotation
unfoldable pub rotated_file : LogFile → Time → Bytes
unfolding rotated_name strlcpy strlcat
rotated_file lf t = strlcat (strlcpy max_path lf.path) max_path (rotated_name lf t)

-- Whether it is not yet the time to rotate
unfoldable pub too_early : Windows → LogFile → Time → Bool
too_early w lf t =
    (lf.rotate == 0) || ltb (w.ticks t) ((w.ticks lf.time + lf.rotate * 10000000) % 2 ^ 64)

-- `logRotate`; the locks on the files are left out.
unfoldable pub log_rotate : Windows → (opened : Option ℕ) → Time → LogFile → LogFile × List Event
unfolding too_early rotated_file
log_rotate w none t lf =
    if too_early w lf t
    then (lf, [])
    else (record lf { time = t; file = rotated_file lf t }, opens t (rotated_file lf t) none ∷ [])
log_rotate w (some h) t lf = if too_early w lf t then (lf, []) else (
  record lf { time = t; file = rotated_file lf t; handle = some h },
  opens t (rotated_file lf t) (some h)
      ∷ elim (lf.handle) [ none ↦ [] | some old ↦ closed old ∷ [] ],
)

-- `apxLogLevelSet`, for a log that is open
unfoldable pub log_level_set : ℕ → LogFile → LogFile
log_level_set zero lf = record lf { level = debug }
log_level_set (suc zero) lf = record lf { level = info }
log_level_set (suc (suc zero)) lf = record lf { level = warn }
log_level_set (suc (suc (suc zero))) lf = record lf { level = error }
log_level_set (suc (suc (suc (suc n)))) lf = lf

-- `apxLogLevelSetW`, for a log that is open; `same` is `lstrcmpiW`.
unfoldable pub log_level_set_name : (same : Bytes → Bytes → Bool) → Option Bytes → LogFile → LogFile
log_level_set_name same none lf = lf
log_level_set_name same (some name) lf =
    if same name (codes "error")
    then record lf { level = error }
    else if same name (codes "warn")
    then record lf { level = warn }
    else if same name (codes "info")
    then record lf { level = info }
    else if same name (codes "debug")
    then record lf { level = debug }
    else lf

-- `sName` of `apxLogOpen` and the `szFile` that it makes with the directory
unfoldable pub open_name : (path : Bytes) (prefix : Option Bytes) (rotate : ℕ) → Time → Bytes
unfolding day_extension time_extension strlcpy strlcat
open_name path prefix rotate t = strlcat (strlcpy max_path path) max_path (
    b'\\'
    ∷ (text_or (codes "commons-daemon") prefix
        ++ (if not (rotate == 0) && ltb rotate 86400
            then time_extension t 0 0 0
            else day_extension t)))

-- `apxLogFile`: the name it returns
unfoldable pub log_file :
    (path : Bytes) (prefix name : Option Bytes) (stamped : Bool) (rotate : ℕ) → Time → Bytes
unfolding day_extension time_extension strlcpy strlcat
log_file path prefix name stamped rotate t = strlcat (strlcpy 4095 (strlcpy max_path path)) 4095 (
    b'\\'
    ∷ (text_or [] prefix
        ++ (text_or [] name
            ++ (if not stamped
                then []
                else if not (rotate == 0) && ltb rotate 86400
                then time_extension t 0 0 0
                else day_extension t))))
