-- ===== src/Daemon/Kernel.antt =====
-- The system calls that jsvc-unix.c makes, as a parameter: the operations on the state of the system
-- and what their manual pages say of them, where a theorem needs it.
use boundary_event_sdk.Prelude.{ℕ, Bool, Option, Bytes, ℤ}

-- `open(path, O_RDWR | O_CREAT, …)`: the content of the file, or `errno`
pub data Opened : Type 0 where
  opened : Bytes → Opened
  failed : ℕ → Opened

-- How `waitpid` says that the child ended: `WIFEXITED`, `WIFSIGNALED`, neither
pub data Status : Type 0 where
  exited : ℕ → Status
  signaled : ℕ → Status
  stopped : ℕ → Status

pub record Kernel : Type 1 where
  pub World : Type 0
  pub getpid : World → ℕ
  -- `kill(pid, 0) == 0`
  pub alive : World → ℤ → Bool
  pub open_rw : Bytes → World → Opened × World
  -- `open(path, O_RDONLY)` and the bytes that `read` finds; `none`: it cannot be opened
  pub content : Bytes → World → Option Bytes
  -- `fdopen`, `fprintf` and `fflush`, which are to give the file this content: whether all of them succeed
  pub write : Bytes → Bytes → World → Bool × World
  pub unlink : Bytes → World → World
  -- `none` is success, `some e` is -1 with `errno` e
  pub mkdir : Bytes → ℕ → World → Option ℕ × World
  pub kill : ℤ → ℕ → World → World
  pub sleep : ℕ → World → World
  -- `waitpid(pid, &status, WNOHANG)`; `none`: the child is still there
  pub reap : ℤ → World → Option Status × World

abbrev pub enoent : ℕ
enoent = 2

abbrev pub enomem : ℕ
enomem = 12

abbrev pub eexist : ℕ
eexist = 17

abbrev pub enotdir : ℕ
enotdir = 20

abbrev pub sigterm : ℕ
sigterm = 15
