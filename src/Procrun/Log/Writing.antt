-- ===== src/Procrun/Log/Writing.antt =====
-- `apxLogWrite`.

use boundary_event_sdk.Prelude.{
  ℕ, ◌-◌, Bool, not, ◌&&◌, ◌||◌, Option, none, some, List, [], ◌∷◌, ◌++◌, Bytes, codes, length, ltb,
  ◌==◌, is_some, if◌then◌else◌,
}
use boundary_event_sdk.Text.{decimal}
use boundary_event_sdk.Procrun.Log.{
  Time, Level, debug, info, warn, error, rank, LogFile, Event, wrote, flushed, Windows, copies,
  text_or, pad_zeros, log_rotate,
}

-- A name of a source file, which is not empty: its first byte and the others
abbrev pub SourceName : Type 0
SourceName = ℕ × Bytes

-- What comes after the last separator
unfoldable pub after_separator : Bytes → Option Bytes
after_separator [] = none
after_separator (c ∷ s) = elim (after_separator s) [
  | some base ↦ some base
  | none ↦ if (c == b'\\') || (c == b'/') then some s else none
]

-- The loop that goes back from the end of `szFile` and stops at its first byte
unfoldable pub base_name : SourceName → Bytes
unfolding after_separator
base_name (c, s) = elim (after_separator s) [ some base ↦ base | none ↦ c ∷ s ]

-- Without the byte `c` at the end
unfoldable pub cut_end : (c : ℕ) → Bytes → Bytes
cut_end c [] = []
cut_end c (x ∷ []) = if x == c then [] else x ∷ []
cut_end c (x ∷ y ∷ s) = x ∷ cut_end c (y ∷ s)

-- Without a line separator at the end
unfoldable pub trim_line : Bytes → Bytes
unfolding cut_end
trim_line s = cut_end 13 (cut_end 10 s)

-- A call: `text` is what `szFormat` makes of its arguments, or `none` for a `NULL`; `err` is `GetLastError`.
pub record Call : Type 0 where
  pub level : Level
  pub stamped : Bool
  pub source : Option SourceName
  pub line : ℕ
  pub text : Option Bytes
  pub err : ℕ
  pub thread : ℕ

-- The time when a line is written, and the answer to `CreateFileW` if it is asked for then
abbrev pub Moment : Type 0
Moment = Time × Option ℕ

-- `f`
unfoldable pub place_of : LogFile → Call → Option Bytes
unfolding base_name
place_of lf c =
    if (rank lf.level == 0) || (rank c.level == 3)
    then (elim (c.source) [ none ↦ none | some s ↦ some (base_name s) ])
    else none

-- `buffer`
unfoldable pub message_of : Windows → LogFile → Call → Bytes
unfolding place_of
message_of w lf c = elim (c.text) [
  | some t ↦ t
  | none ↦
      if not (c.err == 0)
      then w.system_text c.err
      else if rank c.level == 3
      then codes "Unknown error code occured in ("
        ++ text_or w.null_text (place_of lf c)
        ++ codes ":"
        ++ decimal c.line
        ++ codes ") "
      else codes "Unknown error code"
]

-- `_log_level`
abbrev pub level_text : Level → Bytes
level_text debug = codes "[debug] "
level_text info = codes "[info]  "
level_text warn = codes "[warn]  "
level_text error = codes "[error] "

-- `"[%d-%02d-%02d %02d:%02d:%02d] "`
unfoldable pub stamp : Time → Bytes
unfolding pad_zeros
stamp t =
    codes "["
    ++ decimal t.year
    ++ codes "-"
    ++ pad_zeros 2 t.month
    ++ codes "-"
    ++ pad_zeros 2 t.day
    ++ codes " "
    ++ pad_zeros 2 t.hour
    ++ codes ":"
    ++ pad_zeros 2 t.minute
    ++ codes ":"
    ++ pad_zeros 2 t.second
    ++ codes "] "

-- `"(%10s:%-4d) "` and `"[%5d] "`
unfoldable pub place_text : Bytes → (line : ℕ) → Bytes
place_text f line =
    codes "("
    ++ copies (10 - length f) b' '
    ++ f
    ++ codes ":"
    ++ decimal line
    ++ copies (4 - length (decimal line)) b' '
    ++ codes ") "

unfoldable pub thread_text : ℕ → Bytes
thread_text n = codes "[" ++ copies (5 - length (decimal n)) b' ' ++ decimal n ++ codes "] "

abbrev pub place_events : (h : ℕ) → LogFile → Call → Option Bytes → List Event
place_events h lf c none = []
place_events h lf c (some f) = if rank lf.level == 0 then wrote h (place_text f c.line) ∷ [] else []

-- The calls of `WriteFile` for one line, and the flush
unfoldable pub line_events : (h : ℕ) → Windows → LogFile → Call → Time → List Event
unfolding place_of message_of trim_line stamp thread_text
line_events h w lf c t =
    let body = trim_line (message_of w lf c) in
    (if c.stamped then wrote h (stamp t) ∷ [] else [])
    ++ (wrote h (level_text c.level) ∷ [])
    ++ place_events h lf c (place_of lf c)
    ++ (wrote h (thread_text c.thread) ∷ [])
    ++ (if length body == 0 then [] else wrote h body ∷ [])
    ++ (wrote h (13 ∷ 10 ∷ []) ∷ [])
    ++ (if rank c.level == 0 then [] else flushed h ∷ [])

-- The part of `apxLogWrite` from the choice of `f` on, but for the recursive call: the log and what is done.
-- `console`: the log is `_st_sys_errhandle`.
unfoldable pub write_line :
    (console : Bool) → Windows → Call → Moment → LogFile → LogFile × List Event
unfolding message_of log_rotate line_events
write_line console w c (t, opened) lf =
    let (lf1, rotation) = log_rotate w opened t lf in
    let lf2 = if console then lf else lf1 in
    let before = if console then [] else rotation in
    if (length (message_of w lf c) == 0) then (lf, []) else elim (lf.handle) [
      | none ↦ (lf, [])
      | some h ↦ (lf2, before ++ elim (lf2.handle) [ none ↦ [] | some k ↦ line_events k w lf c t ])
    ]

-- `apxLogWrite`: what it returns, the log, and what is done; the second moment is that of the recursive call.
unfoldable pub log_write :
    (console : Bool) → Windows → Call → Moment → Moment → LogFile → ℕ × LogFile × List Event
unfolding write_line trim_line message_of
log_write console w c m m' lf =
    let (lf1, first) = write_line console w c m lf in
    let (lf2, second) = write_line console w (record c { text = none }) m' lf1 in
    let len = length (trim_line (message_of w lf c)) in
    let has_text = is_some c.text in
    if ltb (rank c.level) (rank lf.level)
    then (0, lf, [])
    else if has_text && (not (c.err == 0) && (rank c.level == 3))
    then (len, lf2, first ++ second)
    else (len, lf1, first)
