-- ===== src/Procrun/Process/Streams.antt =====
-- What is written to the child: `__apxProcessPutc`, `__apxProcessWrite`, `apxProcessWrite` and
-- `apxProcessPutsA`.
pub mod Written
use boundary_event_sdk.Prelude.{
  ℕ, ◌+◌, Bool, true, false, not, ◌&&◌, ◌||◌, Option, none, some, List, [], ◌∷◌, ◌++◌, Bytes,
  length, take, drop, ltb, ◌==◌, if◌then◌else◌,
}

-- An answer of `WriteFile`: `none` for a failure, or the number of bytes that were taken; and whether the child
-- still counts as running in the next round.
abbrev pub Answer : Type 0
Answer = Option ℕ × Bool

-- The number of bytes written, and the bytes that the pipe got
abbrev pub Written : Type 0
Written = ℕ × Bytes

abbrev pub add_piece : (wr : ℕ) (piece : Bytes) → Written → Written
add_piece wr piece (n, got) = (wr + n, piece ++ got)

-- The loop of `__apxProcessWrite`; `none`: it still goes on when there are no more answers.
unfoldable pub write_loop : List Answer → Bytes → Option Written
write_loop [] buf = none
write_loop ((none, running) ∷ more) buf = some (0, [])
write_loop ((some wr, running) ∷ more) buf =
    let rest = write_loop more (drop wr buf) in
    if not (ltb wr (length buf))
    then some (wr, take wr buf)
    else if not running
    then some (wr, take wr buf)
    else elim rest [ none ↦ none | some w ↦ some (add_piece wr (take wr buf) w) ]

-- `__apxProcessWrite`
unfoldable pub process_write : (running : Bool) → List Answer → Option Bytes → Option Written
unfolding write_loop
process_write running answers none = some (0, [])
process_write running answers (some buf) =
    if (length buf == 0) || not running then some (0, []) else write_loop answers buf

-- `__apxProcessPutc`: what it returns
unfoldable pub process_putc : (running : Bool) → Answer → (size : ℕ) → ℕ
process_putc false a size = 0
process_putc true (none, r) size = 0
process_putc true (some wr, r) size = if wr == size then 1 else 0

-- `apxProcessPutsA`, for a process: what it writes and returns, and whether it flushes the pipe
unfoldable pub process_puts :
    (running : Bool) → List Answer → Option Bytes → Option (Written × Bool)
unfolding process_write
process_puts running answers none = some ((0, []), false)
process_puts running answers (some s) = elim (process_write running answers (some s)) [
  | none ↦ none
  | some (n, got) ↦ some ((n, got), not (n == 0))
]
