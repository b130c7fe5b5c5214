-- ===== src/Daemon/Wait/Bound.antt =====
-- How long `wait_child` waits.
use native.Mathlib.Nat.{suc-mul}
use boundary_event_sdk.Prelude.{
  ℕ, zero, suc, ◌+◌, ◌*◌, ◌/◌, ◌≤◌, ◌≡◌, refl, Bool, false, Option, none, some, ℤ, arith,
  Option-cases, inl, inr,
}
use boundary_event_sdk.Arguments.{ArgData}
use boundary_event_sdk.Daemon.Kernel.{Kernel}
use boundary_event_sdk.Daemon.PidFile.{read_pid}
use boundary_event_sdk.Daemon.Wait.{
  answer, unready, ready, Look, look_jvm, look_pidf, look, tries, interval, go_on, wait_loop,
  wait_child,
}

module _ (k : Kernel) (time : k.World → ℕ) where
  open k use {World, sleep, reap, content, alive}

  -- What the manual pages say of the clock: `sleep` takes the seconds it is given, `waitpid` with
  -- WNOHANG none.
  pub record Clock : Type 0 where
    pub time-sleep : (n : ℕ) (w : World) → time (sleep n w) ≡ time w + n
    pub time-reap : (pid : ℤ) (w : World) → time (reap pid w).1 ≡ time w

  abbrev look_world : Look k → World
  look_world (answer n w) = w
  look_world (unready havejvm w) = w

  ready-time : (pid : ℤ) (w : World) → Clock → time (look_world (ready k pid w)) ≡ time w
  unfolding ready
  ready-time pid w c = ground (arith, c.time-reap pid w)

  look_jvm-time :
      (args : ArgData) (pid : ℤ) (havejvm : Bool) (jvm : Option ℤ) (w : World)
      → Clock
      → time (look_world (look_jvm k args pid havejvm jvm w)) ≡ time w
  unfolding look_jvm
  look_jvm-time args pid havejvm none w c = refl
  look_jvm-time args pid havejvm (some jvm) w c = ground (arith, ready-time pid w c)

  look_pidf-time :
      (args : ArgData) (pid : ℤ) (havejvm : Bool) (w : World)
      → Clock
      → time (look_world (look_pidf k args pid havejvm w)) ≡ time w
  unfolding look_pidf
  look_pidf-time args pid havejvm w c = elim (Option-cases (content args.pidf w)) [
    | inl absent ↦ ground (arith, absent)
    | inr (file, holds) ↦ ground (arith, holds, look_jvm-time args pid havejvm (read_pid file) w c)
  ]

  look-time :
      (args : ArgData) (pid : ℤ) (havejvm : Bool) (w : World)
      → Clock
      → time (look_world (look k args pid havejvm w)) ≡ time w + 1
  unfolding look
  look-time args pid havejvm w c = ground (
    arith,
    c.time-sleep 1 w,
    c.time-reap pid (sleep 1 w),
    look_pidf-time args pid havejvm (reap pid (sleep 1 w)).1 c,
  )

  go_on-time :
      (next : Bool → World → ℕ × World) (l : Look k) (more : ℕ)
      → ((havejvm : Bool) (v : World) → time (next havejvm v).1 ≤ time v + more)
      → time (go_on k next l).1 ≤ time (look_world l) + more
  go_on-time next (answer n v) more h = omega arith
  go_on-time next (unready jvm v) more h = h jvm v

  wait_loop-time :
      (args : ArgData) (pid : ℤ) (waittime count : ℕ) (havejvm : Bool) (w : World)
      → Clock
      → time (wait_loop k args pid waittime count havejvm w).1 ≤ time w + count * (1 + waittime)
  unfolding wait_loop
  wait_loop-time args pid waittime zero havejvm w c = omega arith
  wait_loop-time args pid waittime (suc count) havejvm w c =
      let whole : suc count * (1 + waittime) ≡ 1 + (waittime + count * (1 + waittime)) =
        omega (arith, suc-mul count (1 + waittime)) in
      omega (
        arith,
        whole,
        look-time args pid havejvm w c,
        go_on-time (λ jvm v. wait_loop k args pid waittime count jvm (sleep waittime v))
            (look k args pid havejvm w) (waittime + count * (1 + waittime))
            (λ jvm v. omega (
              arith,
              c.time-sleep waittime v,
              wait_loop-time args pid waittime count jvm (sleep waittime v) c,
            )),
      )

  tries-interval : (wait : ℕ) → tries wait * (1 + interval wait) ≤ wait + wait / 10 + 10
  unfolding tries interval
  tries-interval wait = ground arith

  -- `wait_child` comes back within the waiting time, a tenth of it, and ten seconds.
  pub wait_child-time :
      (args : ArgData) (wait : ℕ) (pid : ℤ) (w : World)
      → Clock
      → time (wait_child k args wait pid w).1 ≤ time w + (wait + wait / 10 + 10)
  unfolding wait_child
  wait_child-time args wait pid w c =
      omega
        (arith, tries-interval wait, wait_loop-time args pid (interval wait) (tries wait) false w c)
