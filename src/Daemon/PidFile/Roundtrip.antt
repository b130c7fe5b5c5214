-- ===== src/Daemon/PidFile/Roundtrip.antt =====
-- The pid file between `check_pid`, `get_pidf` and the next `check_pid`.
use native.Mathlib.Nat.{zero-add, suc-add}
use boundary_event_sdk.Prelude.{
  ℕ, suc, ◌+◌, ◌≤◌, ◌<◌, ◌^◌, ◌≡◌, ◌∙◌, refl, true, some, [], ◌∷◌, ◌++◌, Bytes, length, take, drop,
  append_assoc, ℤ, pos, negsuc, ◌-◌, arith, Option-cases, Bool-cases, Bool, ◌⊎◌, inl, inr, ap, ◌==◌,
  false,
}
use boundary_event_sdk.Text.{decimal, atoi}
use boundary_event_sdk.Text.Decimal.{atoi-decimal, decimal-length, decimal-head}
use boundary_event_sdk.Arguments.{ArgData}
use boundary_event_sdk.Daemon.Kernel.{Kernel, Opened, opened, failed, enoent, enotdir}
use boundary_event_sdk.Daemon.PidFile.{
  read_pid, buffer_size, open_pidf, write_own, check_opened, check_pid, overwrite,
}

take-append : (n : ℕ) (xs ys : Bytes) → take (length xs + n) (xs ++ ys) ≡ xs ++ take n ys
take-append n [] ys = rw zero-add refl
take-append n (x ∷ xs) ys = rw (suc-add, take-append n xs ys) refl

read_pid-some :
    (file : Bytes) (c : ℕ) (s : Bytes)
    → file ≡ c ∷ s
    → read_pid file ≡ some (atoi (take buffer_size file))
unfolding read_pid
read_pid-some file c s e = rw e refl

-- The number that leads the file is read, whatever stands behind its line.
read_pid-decimal :
    (n : ℕ) (file : Bytes)
    → n < 2 ^ 31
    → read_pid (overwrite (decimal n ++ 10 ∷ []) file) ≡ some (pos n)
read_pid-decimal n file h =
    let (c, s, e) = decimal-head n in
    let tail : Bytes = drop (length (decimal n ++ 10 ∷ [])) file in
    let short : length (decimal n) ≤ 10 = decimal-length n h in
    let all : length (decimal n) + suc (79 - length (decimal n)) ≡ 80 = omega arith in
    let kept : take 80 (decimal n ++ 10 ∷ tail)
        ≡ decimal n ++ 10 ∷ take (79 - length (decimal n)) tail =
      rw all at (take-append (suc (79 - length (decimal n))) (decimal n) (10 ∷ tail)) in
    rw
      (
        append_assoc (decimal n) (10 ∷ []) tail,
        read_pid-some (decimal n ++ 10 ∷ tail) c (s ++ 10 ∷ tail) (rw e refl),
        kept,
        atoi-decimal n (10 ∷ take (79 - length (decimal n)) tail) h refl,
      )
      refl

module _ (k : Kernel) where
  open k use {World, getpid, alive, open_rw, content, write, unlink, mkdir}

  -- `open` fails, and not because the file or its directory is missing.
  abbrev pub Refused : Bytes → World → Type 0
  Refused path w =
      (e : ℕ) × (open_rw path w ≡ (failed e, w)) × (e == enotdir ≡ false) × (e == enoent ≡ false)

  -- What the manual pages say: a file reads back as it was written, if the writing succeeded; a file that can be read
  -- opens for writing too and keeps its content, or is refused with another error than that it or its directory is
  -- not there; writing changes no process's number; a process is there for its own `kill(pid, 0)`; a pid is an `int`.
  pub record Laws : Type 0 where
    pub content-write :
        (path file : Bytes) (w : World)
        → (write path file w).0 ≡ true
        → content path (write path file w).1 ≡ some file
    pub open_rw-content :
        (path file : Bytes) (w : World)
        → content path w ≡ some file
        → (open_rw path w ≡ (opened file, w)) ⊎ Refused path w
    pub getpid-write : (path file : Bytes) (w : World) → getpid (write path file w).1 ≡ getpid w
    pub alive-getpid : (w : World) → alive w (pos (getpid w)) ≡ true
    pub getpid-bound : (w : World) → getpid w < 2 ^ 31

  -- A launcher that neither prints the version nor checks.
  abbrev pub Runs : ArgData → Type 0
  Runs args = (args.vers ≡ false) × (args.chck ≡ false)

  -- The file with the pid in front of what is left of the old file, and whether the writing succeeds
  abbrev pub claiming : ArgData → World → Bytes → Bool × World
  claiming args w file = write args.pidf (overwrite (decimal (getpid w) ++ 10 ∷ []) file) w

  abbrev pub claimed : ArgData → World → Bytes → World
  claimed args w file = (claiming args w file).1

  -- The run of `check_pid` from `w` to `w'` has opened the file, and then its writing of the pid has failed.
  abbrev pub Unwritten : ArgData → (w w' : World) → Type 0
  Unwritten args w w' =
      (v : World) × (file : Bytes) × (open_pidf k args.pidf w ≡ (opened file, v))
      × ((claiming args v file).0 ≡ false)
      × (w' ≡ claimed args v file)

  write_own-claims :
      (args : ArgData) (file : Bytes) (w : World)
      → Runs args
      → write_own k args file w ≡ (pos 0, claimed args w file)
  unfolding write_own
  write_own-claims args file w runs = ground arith

  -- If `check_pid` returns 0, it has tried to write the pid.
  check_opened-claims :
      (args : ArgData) (r : Opened × World) (w : World)
      → Runs args
      → check_opened k args r ≡ (pos 0, w)
      → (v : World) × (file : Bytes) × (r ≡ (opened file, v)) × (w ≡ claimed args v file)
  unfolding check_opened
  check_opened-claims args (failed e, v) w runs h = cc
  check_opened-claims args (opened file, v) w runs h = elim (Option-cases (read_pid file)) [
    | inl empty ↦ (v, file, refl, ground (arith, empty, write_own-claims args file v runs))
    | inr (pid, named) ↦ (v, file, refl, ground (arith, named, write_own-claims args file v runs))
  ]

  check_pid-claims :
      (args : ArgData) (w w' : World)
      → Runs args
      → check_pid k args w ≡ (pos 0, w')
      → (v : World) × (file : Bytes) × (open_pidf k args.pidf w ≡ (opened file, v))
        × (w' ≡ claimed args v file)
  unfolding check_pid
  check_pid-claims args w w' runs h = check_opened-claims args (open_pidf k args.pidf w) w' runs h

  -- The file that `check_pid` leaves.
  claimed-content :
      (args : ArgData) (w : World) (file : Bytes)
      → Laws
      → (claiming args w file).0 ≡ true
      → content args.pidf (claimed args w file)
        ≡ some (overwrite (decimal (getpid (claimed args w file)) ++ 10 ∷ []) file)
  claimed-content args w file laws ok =
      rw (laws.getpid-write args.pidf (overwrite (decimal (getpid w) ++ 10 ∷ []) file) w)
        (laws.content-write args.pidf (overwrite (decimal (getpid w) ++ 10 ∷ []) file) w ok)

  -- The file names the process for which `check_pid` returned 0.
  abbrev Names : ArgData → World → Type 0
  Names args w' =
      (file : Bytes) × (content args.pidf w' ≡ some file) × (read_pid file ≡ some (pos (getpid w')))

  -- The pid in the file is that of the process for which `check_pid` returned 0.
  pub check_pid-content :
      (args : ArgData) (w w' : World)
      → Laws
      → Runs args
      → check_pid k args w ≡ (pos 0, w')
      → Unwritten args w w' ⊎ Names args w'
  check_pid-content args w w' laws runs h =
      let (v, file, found, e) = check_pid-claims args w w' runs h in
      elim (Bool-cases (claiming args v file).0) [
        | inr fails ↦ inl (v, file, found, fails, e)
        | inl lands ↦ inr (
            rw e (
              _,
              claimed-content args v file laws lands,
              read_pid-decimal (getpid (claimed args v file)) file
                  (laws.getpid-bound (claimed args v file)),
            ))
      ]

  check_pid-alive :
      (args : ArgData) (w : World) (file : Bytes) (pid : ℤ)
      → open_rw args.pidf w ≡ (opened file, w)
      → read_pid file ≡ some pid
      → alive w pid ≡ true
      → check_pid k args w ≡ (pos 122, w)
  unfolding check_pid open_pidf check_opened
  check_pid-alive args w file pid opens reads lives = ground arith

  check_pid-Refused :
      (args : ArgData) (w : World) → Refused args.pidf w → check_pid k args w ≡ (negsuc 0, w)
  unfolding check_pid open_pidf check_opened
  check_pid-Refused args w (e, fails, some_dir, some_file) =
      ground (arith, fails, some_dir, some_file)

  -- Where the file names a process that is there, a launcher gets 122, or -1, and changes nothing.
  check_pid-kept_out :
      (args : ArgData) (w : World) (file : Bytes) (pid : ℤ)
      → Laws
      → content args.pidf w ≡ some file
      → read_pid file ≡ some pid
      → alive w pid ≡ true
      → (check_pid k args w ≡ (pos 122, w))
        ⊎ ((check_pid k args w ≡ (negsuc 0, w)) × Refused args.pidf w)
  check_pid-kept_out args w file pid laws holds reads lives =
      elim (laws.open_rw-content args.pidf file w holds) [
        | inl opens ↦ inl (check_pid-alive args w file pid opens reads lives)
        | inr refused ↦ inr (check_pid-Refused args w refused, refused)
      ]

  -- When `check_pid` has returned 0 to a launcher that runs a service, then the writing of its pid has failed; or
  -- another launcher with the same pid file gets 122, or -1 if it may not open the file for writing, and changes
  -- nothing. The other one must be able to read the file as the first one left it, and to find the first one
  -- by `kill(pid, 0)`.
  pub check_pid_excludes :
      (args other : ArgData) (w w' later : World)
      → Laws
      → Runs args
      → check_pid k args w ≡ (pos 0, w')
      → other.pidf ≡ args.pidf
      → content args.pidf later ≡ content args.pidf w'
      → alive later (pos (getpid w')) ≡ true
      → Unwritten args w w'
        ⊎ ((check_pid k other later ≡ (pos 122, later))
            ⊎ ((check_pid k other later ≡ (negsuc 0, later)) × Refused other.pidf later))
  check_pid_excludes args other w w' later laws runs h same kept lives =
      elim (check_pid-content args w w' laws runs h) [
        | inl lost ↦ inl lost
        | inr (file, holds, reads) ↦ inr (
            check_pid-kept_out other later file (pos (getpid w')) laws
              (ap (λ (p : Bytes). content p later) same ∙ (kept ∙ holds)) reads lives)
      ]

  -- If `kill(0, 0)` succeeds (it signals the caller's own group), a pid file that does not begin with a
  -- number keeps every launcher out: its text is read as process 0.
  pub check_pid_garbage :
      (args : ArgData) (w : World) (file : Bytes)
      → Laws
      → alive w (pos 0) ≡ true
      → content args.pidf w ≡ some file
      → read_pid file ≡ some (pos 0)
      → (check_pid k args w ≡ (pos 122, w))
        ⊎ ((check_pid k args w ≡ (negsuc 0, w)) × Refused args.pidf w)
  check_pid_garbage args w file laws lives holds reads =
      check_pid-kept_out args w file (pos 0) laws holds reads lives
