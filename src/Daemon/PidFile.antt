-- ===== src/Daemon/PidFile.antt =====
-- The pid file and the file that says that the service is up: `check_pid`, `get_pidf`,
-- `check_tmp_file`, `create_tmp_file` and `remove_tmp_file` of src/native/unix/native/jsvc-unix.c. The
-- locks on the file are held while one of these runs, so each is one step of the system.
pub mod Roundtrip
use boundary_event_sdk.Prelude.{
  ℕ, suc, ◌≡◌, Bool, true, false, not, ◌&&◌, ◌||◌, Option, none, some, [], ◌∷◌, ◌++◌, Bytes, codes,
  length, take, drop, ◌==◌, if◌then◌else◌, ℤ, pos, negsuc,
}
use boundary_event_sdk.Text.{atoi, decimal}
use boundary_event_sdk.Arguments.{ArgData}
use boundary_event_sdk.Daemon.Kernel.{Kernel, Opened, opened, failed, enoent, enotdir}
use boundary_event_sdk.Daemon.Directories.{mkdir2}

-- `sizeof(buff)`
abbrev pub buffer_size : ℕ
buffer_size = 80

-- `S_IRWXU | S_IXGRP | S_IRGRP | S_IXOTH | S_IROTH`
abbrev directory_perms : ℕ
directory_perms = 493

-- The process that the file names; `none`: it is empty. `atoi` stops at a NUL as at any other byte that
-- is no digit.
unfoldable pub read_pid : Bytes → Option ℤ
read_pid [] = none
read_pid (c ∷ s) = some (atoi (take buffer_size (c ∷ s)))

-- The file when `text` is written over its beginning; it is not truncated.
abbrev pub overwrite : (text file : Bytes) → Bytes
overwrite text file = text ++ drop (length text) file

abbrev pub is_negative : ℤ → Bool
is_negative (pos n) = false
is_negative (negsuc n) = true

-- The text of a pid, as `%d` prints it
abbrev print_int : ℤ → Bytes
print_int (pos n) = decimal n
print_int (negsuc n) = b'-' ∷ decimal (suc n)

-- `/tmp/<pid>.jsvc_up`
abbrev pub tmp_name : ℤ → Bytes
tmp_name pid = codes "/tmp/" ++ print_int pid ++ codes ".jsvc_up"

module _ (k : Kernel) where
  open k use {World, getpid, alive, open_rw, content, write, unlink, mkdir}

  -- `open`, once more after `mkdir2` made the directory
  unfoldable pub open_pidf : Bytes → World → Opened × World
  open_pidf path w =
      let (r, w1) = open_rw path w in
      let (rc, w2) = mkdir2 k path directory_perms w1 in
      elim r [
        | opened s ↦ (opened s, w1)
        | failed e ↦
            if e == enotdir || e == enoent
            then (if rc == 0 then open_rw path w2 else (failed rc, w2))
            else (failed e, w1)
      ]

  -- "skip writing the pid file if version or check"; nobody looks whether the writing succeeds.
  unfoldable pub write_own : ArgData → (file : Bytes) → World → ℤ × World
  write_own args file w =
      if not args.vers && not args.chck
      then (pos 0, (write args.pidf (overwrite (decimal (getpid w) ++ 10 ∷ []) file) w).1)
      else (pos 0, w)

  unfoldable pub check_opened : ArgData → Opened × World → ℤ × World
  check_opened args (failed e, w) = (negsuc 0, w)
  check_opened args (opened file, w) = elim (read_pid file) [
    | none ↦ write_own args file w
    | some pid ↦ if alive w pid then (pos 122, w) else write_own args file w
  ]

  unfoldable pub check_pid : ArgData → World → ℤ × World
  check_pid args w = check_opened args (open_pidf args.pidf w)

  unfoldable pub running : World → Option ℤ → ℤ
  running w none = negsuc 0
  running w (some pid) = if alive w pid then pid else negsuc 0

  unfoldable pub get_pidf : ArgData → World → ℤ
  get_pidf args w = elim (content args.pidf w) [
    | none ↦ negsuc 0
    | some file ↦ running w (read_pid file)
  ]

  unfoldable pub check_tmp_file : ArgData → World → ℤ
  check_tmp_file args w =
      let pid = get_pidf args w in
      if is_negative pid
      then negsuc 0
      else elim (content (tmp_name pid) w) [ none ↦ negsuc 0 | some file ↦ pos 0 ]

  unfoldable pub create_tmp_file : World → World
  create_tmp_file w = (open_rw (tmp_name (pos (getpid w))) w).1

  unfoldable pub remove_tmp_file : World → World
  remove_tmp_file w = unlink (tmp_name (pos (getpid w))) w
