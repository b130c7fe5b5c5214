-- ===== src/Daemon/Wait.antt =====
-- `wait_child` and `stop_child` of src/native/unix/native/jsvc-unix.c: the launcher waits until the service
-- is up, or down.
pub mod Ready
pub mod Bound
use boundary_event_sdk.Prelude.{
  ℕ, zero, suc, ◌/◌, Bool, true, false, Option, none, some, ℤ, pos, negsuc, ltb, if◌then◌else◌,
}
use boundary_event_sdk.Arguments.{ArgData}
use boundary_event_sdk.Daemon.Kernel.{Kernel, Status, exited, signaled, stopped, sigterm}
use boundary_event_sdk.Daemon.PidFile.{read_pid, get_pidf, check_tmp_file}

-- `WEXITSTATUS`, or 1
unfoldable pub exit_of : Status → ℕ
exit_of (exited n) = n
exit_of (signaled n) = 1
exit_of (stopped n) = 1

abbrev pub is_zero : ℤ → Bool
is_zero (pos zero) = true
is_zero _ = false

abbrev pub is_positive : ℤ → Bool
is_positive (pos (suc n)) = true
is_positive _ = false

-- `count` and `waittime`, of `args->wait`
unfoldable pub tries : (wait : ℕ) → ℕ
tries wait = if ltb 10 (wait / 10) then wait / 10 else 10

unfoldable pub interval : (wait : ℕ) → ℕ
interval wait = if ltb 10 (wait / 10) then 10 else wait / 10

module _ (k : Kernel) where
  open k use {World, content, alive, sleep, reap, kill}

  -- What one turn of the loop finds: it returns, or goes on with `havejvm`.
  pub data Look : Type 0 where
    answer : ℕ → World → Look
    unready : (havejvm : Bool) → World → Look

  -- "the JVM is started", unless the controller has left meanwhile
  unfoldable pub ready : (pid : ℤ) → World → Look
  ready pid w =
      let (r, w') = reap pid w in
      elim r [ some status ↦ answer (exit_of status) w' | none ↦ answer 0 w' ]

  -- "the JVM process has started"
  unfoldable pub look_jvm : ArgData → (pid : ℤ) → (havejvm : Bool) → (jvm : Option ℤ) → World → Look
  look_jvm args pid havejvm none w = unready havejvm w
  look_jvm args pid havejvm (some jvm) w =
      if alive w jvm
      then (if is_zero (check_tmp_file k args w) then ready pid w else unready true w)
      else unready havejvm w

  unfoldable pub look_pidf : ArgData → (pid : ℤ) → (havejvm : Bool) → World → Look
  look_pidf args pid havejvm w = elim (content args.pidf w) [
    | none ↦ if havejvm then answer 1 w else unready havejvm w
    | some file ↦ look_jvm args pid havejvm (read_pid file) w
  ]

  unfoldable pub look : ArgData → (pid : ℤ) → (havejvm : Bool) → World → Look
  look args pid havejvm w =
      let (r, w') = reap pid (sleep 1 w) in
      elim r [ some status ↦ answer (exit_of status) w' | none ↦ look_pidf args pid havejvm w' ]

  abbrev pub go_on : (next : (havejvm : Bool) → World → ℕ × World) → Look → ℕ × World
  go_on next (answer n w) = (n, w)
  go_on next (unready havejvm w) = next havejvm w

  unfoldable pub wait_loop :
      ArgData → (pid : ℤ) → (waittime count : ℕ) → (havejvm : Bool) → World → ℕ × World
  wait_loop args pid waittime zero havejvm w = (1, w)
  wait_loop args pid waittime (suc count) havejvm w =
      go_on (λ jvm v. wait_loop args pid waittime count jvm (sleep waittime v))
        (look args pid havejvm w)

  -- `main` calls it for a `wait` of at least 10.
  unfoldable pub wait_child : ArgData → (wait : ℕ) → (pid : ℤ) → World → ℕ × World
  wait_child args wait pid w = wait_loop args pid (interval wait) (tries wait) false w

  unfoldable pub stop_loop : ArgData → (count : ℕ) → World → ℤ × World
  stop_loop args zero w = (negsuc 0, w)
  stop_loop args (suc count) w =
      let w' = sleep 1 w in
      let rest = stop_loop args count w' in
      if is_positive (get_pidf k args w') then rest else (pos 0, w')

  unfoldable pub stop_child : ArgData → World → ℤ × World
  stop_child args w =
      let pid = get_pidf k args w in
      if is_positive pid then stop_loop args 60 (kill pid sigterm w) else (negsuc 0, w)
