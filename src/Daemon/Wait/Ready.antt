-- ===== src/Daemon/Wait/Ready.antt =====
-- What the answers of `wait_child` and `stop_child` mean.
use boundary_event_sdk.Prelude.{
  ℕ, zero, suc, ◌≡◌, ◌⊎◌, inl, inr, refl, sym, ap, Bool, true, false, Option, none, some, ℤ, pos,
  negsuc, arith, Option-cases, if_elim,
}
use boundary_event_sdk.Arguments.{ArgData}
use boundary_event_sdk.Daemon.Kernel.{Kernel, Status, exited, signaled, stopped, sigterm}
use boundary_event_sdk.Daemon.PidFile.{read_pid, get_pidf, check_tmp_file}
use boundary_event_sdk.Daemon.Wait.{
  exit_of, is_zero, is_positive, answer, unready, ready, Look, look_jvm, look_pidf, look, go_on,
  wait_loop, wait_child, stop_loop, stop_child,
}

module _ (k : Kernel) where
  open k use {World, alive, content, sleep, reap, kill}

  -- The worlds that a run of `wait_child` from `w` comes through: it only sleeps and looks for the child.
  pub data Later (pid : ℤ) : World → World → Type 0 where
    now : (w : World) → Later pid w w
    slept : (n : ℕ) (w v : World) → Later pid (sleep n w) v → Later pid w v
    looked : (w v : World) → Later pid (reap pid w).1 v → Later pid w v

  -- Why the launcher may say that the service is up, at the world `v` of its last look, which leaves `w'`: the
  -- controller is there, the pid file names a process that `kill` finds, and the file of that process under /tmp is
  -- there; or the controller has left with success.
  abbrev pub UpAt : ArgData → (pid : ℤ) → (v w' : World) → Type 0
  UpAt args pid v w' =
      ((check_tmp_file k args v ≡ pos 0) × (reap pid v ≡ (none, w')))
      ⊎ (reap pid v ≡ (some (exited 0), w'))

  abbrev pub Up : ArgData → (pid : ℤ) → (w w' : World) → Type 0
  Up args pid w w' = (v : World) × Later pid w v × UpAt args pid v w'

  abbrev IsRight : ArgData → ℤ → World → Look k → Type 0
  IsRight args pid w (answer zero w') = Up args pid w w'
  IsRight args pid w (answer (suc n) w') = Unit {0}
  IsRight args pid w (unready havejvm w') = Later pid w w'

  exit-IsRight :
      (args : ArgData) (pid : ℤ) (status : Status) (w v w' : World)
      → Later pid w v
      → reap pid v ≡ (some status, w')
      → IsRight args pid w (answer (exit_of status) w')
  unfolding exit_of
  exit-IsRight args pid (exited zero) w v w' l h = (v, l, inr h)
  exit-IsRight args pid (exited (suc n)) w v w' l h = tt
  exit-IsRight args pid (signaled n) w v w' l h = tt
  exit-IsRight args pid (stopped n) w v w' l h = tt

  is_zero_sound : (z : ℤ) → is_zero z ≡ true → z ≡ pos 0
  is_zero_sound (pos zero) h = refl
  is_zero_sound (pos (suc n)) h = cc
  is_zero_sound (negsuc n) h = cc

  reap-pair :
      (pid : ℤ) (w : World) (r : Option Status)
      → (reap pid w).0 ≡ r
      → reap pid w ≡ (r, (reap pid w).1)
  reap-pair pid w r h = ap (λ (x : Option Status). (x, (reap pid w).1)) h

  ready-IsRight :
      (args : ArgData) (pid : ℤ) (w v : World)
      → Later pid w v
      → check_tmp_file k args v ≡ pos 0
      → IsRight args pid w (ready k pid v)
  unfolding ready
  ready-IsRight args pid w v l up = elim (Option-cases (reap pid v).0) [
    | inl there ↦ rw (there, ready) (v, l, inl (up, reap-pair pid v none there))
    | inr (status, gone) ↦
        rw (gone, ready)
          (exit-IsRight args pid status w v (reap pid v).1 l (reap-pair pid v (some status) gone))
  ]

  look_jvm-IsRight :
      (args : ArgData) (pid : ℤ) (havejvm : Bool) (jvm : Option ℤ) (w v : World)
      → Later pid w v
      → IsRight args pid w (look_jvm k args pid havejvm jvm v)
  unfolding look_jvm
  look_jvm-IsRight args pid havejvm none w v l = l
  look_jvm-IsRight args pid havejvm (some jvm) w v l =
      if_elim (IsRight args pid w) (alive v jvm) _ _
        (λ lives.
          if_elim (IsRight args pid w) (is_zero (check_tmp_file k args v)) _ _
            (λ up. ready-IsRight args pid w v l (is_zero_sound (check_tmp_file k args v) up))
            (λ down. l))
        (λ dead. l)

  look_pidf-IsRight :
      (args : ArgData) (pid : ℤ) (havejvm : Bool) (w v : World)
      → Later pid w v
      → IsRight args pid w (look_pidf k args pid havejvm v)
  unfolding look_pidf
  look_pidf-IsRight args pid havejvm w v l = elim (Option-cases (content args.pidf v)) [
    | inl absent ↦
        rw (absent, look_pidf)
          (if_elim (IsRight args pid w) havejvm _ _ (λ had. tt) (λ none_yet. l))
    | inr (file, holds) ↦
        rw (holds, look_pidf) (look_jvm-IsRight args pid havejvm (read_pid file) w v l)
  ]

  look-IsRight :
      (args : ArgData) (pid : ℤ) (havejvm : Bool) (w : World)
      → IsRight args pid w (look k args pid havejvm w)
  unfolding look
  look-IsRight args pid havejvm w =
      let v = sleep 1 w in
      let l : Later pid w v = slept 1 w v (now v) in
      let u : World = (reap pid v).1 in
      elim (Option-cases (reap pid v).0) [
        | inl there ↦
            rw (there, look)
              (look_pidf-IsRight args pid havejvm w u (slept 1 w u (looked v u (now u))))
        | inr (status, gone) ↦
            rw (gone, look)
              (exit-IsRight args pid status w v u l (reap-pair pid v (some status) gone))
      ]

  Later-append : (pid : ℤ) (u v w : World) → Later pid u v → Later pid v w → Later pid u w
  Later-append pid _ _ w (now u) b = b
  Later-append pid _ _ w (slept n u v a) b = slept n u w (Later-append pid (sleep n u) v w a b)
  Later-append pid _ _ w (looked u v a) b = looked u w (Later-append pid (reap pid u).1 v w a b)

  go_on-Up :
      (args : ArgData) (pid : ℤ) (next : Bool → World → ℕ × World) (l : Look k) (w w' : World)
      → ((havejvm : Bool) (v : World) → next havejvm v ≡ (0, w') → Up args pid v w')
      → IsRight args pid w l
      → go_on k next l ≡ (0, w')
      → Up args pid w w'
  go_on-Up args pid next (answer zero v) w w' up r e = rw (sym (ap (λ (q : ℕ × World). q.1) e)) r
  go_on-Up args pid next (answer (suc n) v) w w' up r e = ground arith
  go_on-Up args pid next (unready jvm u) w w' up r e =
      let (v, l, at_v) = up jvm u e in (v, Later-append pid w u v r l, at_v)

  wait_loop-Up :
      (args : ArgData) (pid : ℤ) (waittime count : ℕ) (havejvm : Bool) (w w' : World)
      → wait_loop k args pid waittime count havejvm w ≡ (0, w')
      → Up args pid w w'
  unfolding wait_loop
  wait_loop-Up args pid waittime zero havejvm w w' h = ground arith
  wait_loop-Up args pid waittime (suc count) havejvm w w' h =
      go_on-Up args pid (λ jvm v. wait_loop k args pid waittime count jvm (sleep waittime v))
        (look k args pid havejvm w) w w'
        (λ jvm v e.
          let (u, l, at_u) = wait_loop-Up args pid waittime count jvm (sleep waittime v) w' e in
          (u, slept waittime v u l, at_u))
        (look-IsRight args pid havejvm w) h

  -- The launcher answers 0 only if, at its last look in this run, the pid file named a process that `kill` finds, its
  -- file under /tmp was there and the controller had not left, or the controller had exited with 0: never because the
  -- time is up or the service is gone.
  pub wait_child-Up :
      (args : ArgData) (wait : ℕ) (pid : ℤ) (w w' : World)
      → wait_child k args wait pid w ≡ (0, w')
      → Up args pid w w'
  unfolding wait_child
  wait_child-Up args wait pid w w' h = wait_loop-Up args pid _ _ false w w' h

  stop_loop-gone :
      (args : ArgData) (count : ℕ) (w w' : World)
      → stop_loop k args count w ≡ (pos 0, w')
      → is_positive (get_pidf k args w') ≡ false
  unfolding stop_loop
  stop_loop-gone args zero w w' h = cc
  stop_loop-gone args (suc count) w w' h = ground (arith, stop_loop-gone args count (sleep 1 w) w')

  -- If `stop_child` answers 0, a service was running, it got SIGTERM, and then the pid file named no
  -- live process any more.
  pub stop_child-gone :
      (args : ArgData) (w w' : World)
      → stop_child k args w ≡ (pos 0, w')
      → (is_positive (get_pidf k args w) ≡ true)
        × (stop_loop k args 60 (kill (get_pidf k args w) sigterm w) ≡ (pos 0, w'))
        × (is_positive (get_pidf k args w') ≡ false)
  unfolding stop_child
  stop_child-gone args w w' h =
      ground (arith, stop_loop-gone args 60 (kill (get_pidf k args w) sigterm w) w')
