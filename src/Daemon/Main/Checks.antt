-- ===== src/Daemon/Main/Checks.antt =====
-- What must hold before a controller is started.
use boundary_event_sdk.Prelude.{
  Option, ◌≡◌, ◌≢◌, Bool, true, false, ◌||◌, none, some, List, [], ◌∷◌, Bytes, str_eq, str_eq_refl,
  is_some, arith, Option-cases, inl, inr,
}
use boundary_event_sdk.Arguments.{ArgData, arguments}
use boundary_event_sdk.Home.{home}
use boundary_event_sdk.Daemon.Kernel.{Kernel}
use boundary_event_sdk.Daemon.Users.{checkuser}
use boundary_event_sdk.Daemon.Main.{
  library_of, Surroundings, Step, controlled, replaced, reexecute, control, in_launcher,
  detach_or_control, help_or_go, launch, main,
}

abbrev pub is_controlled : Step → Bool
is_controlled controlled = true
is_controlled _ = false

-- A controller is started.
abbrev pub controls : List Step → Bool
controls [] = false
controls (s ∷ ss) = is_controlled s || controls ss

module _ (k : Kernel) where
  open k use {World}

  -- What the launcher has made sure of
  pub record Checked (e : Surroundings) (argv0 : Bytes) (args : ArgData) : Type 0 where
    pub no_stop : args.stop_running ≡ false
    pub no_help : args.help_page ≡ false
    pub valid_user : is_some (checkuser args.user_name e.account) ≡ true
    pub java_found : is_some (home e.files args.home_path) ≡ true
    pub renamed : str_eq argv0 args.proc_name ≡ true

  reexecute-controls :
      (e : Surroundings) (argv0 : Bytes) (library : Option Bytes)
      → controls (reexecute e argv0 library).steps ≡ false
  unfolding reexecute
  reexecute-controls e argv0 library = ground arith

  launch-Checked :
      (e : Surroundings) (argv0 : Bytes) (args : ArgData) (w : World)
      → controls (launch k e argv0 args w).steps ≡ true
      → Checked e argv0 args
  unfolding launch help_or_go
  launch-Checked e argv0 args w h = record {
    no_stop = ground arith;
    no_help =
        ground (arith, reexecute-controls e argv0 (library_of args (home e.files args.home_path)));
    valid_user =
        ground (arith, reexecute-controls e argv0 (library_of args (home e.files args.home_path)));
    java_found =
        ground (arith, reexecute-controls e argv0 (library_of args (home e.files args.home_path)));
    renamed =
        ground (arith, reexecute-controls e argv0 (library_of args (home e.files args.home_path)));
  }

  main_refused :
      (e : Surroundings) (argv0 : Bytes) (rest : List Bytes) (w : World)
      → arguments e.os e.junk rest ≡ none
      → controls (main k e argv0 rest w).steps ≡ false
  unfolding main
  main_refused e argv0 rest w refused = ground (arith, refused)

  -- A controller is started only if the command line is accepted and asks for neither a stop nor help,
  -- the user is valid, a Java home is found, and the process runs under the name it gives itself.
  pub main-Checked :
      (e : Surroundings) (argv0 : Bytes) (rest : List Bytes) (w : World)
      → controls (main k e argv0 rest w).steps ≡ true
      → (args : ArgData) × (arguments e.os e.junk rest ≡ some args) × Checked e argv0 args
  unfolding main
  main-Checked e argv0 rest w h = elim (Option-cases (arguments e.os e.junk rest)) [
    | inl refused ↦ absurd (cc (main_refused e argv0 rest w refused))
    | inr (args, accepted) ↦
        (args, accepted, launch-Checked e argv0 args w (ground (arith, accepted)))
  ]

  control_returns : (e : Surroundings) (args : ArgData) → (control e args).outcome ≢ replaced
  unfolding control
  control_returns e args h = ground arith

  -- Under the name that it gives itself the launcher does not execute itself again.
  launch_once :
      (e : Surroundings) (argv0 : Bytes) (args : ArgData) (w : World)
      → str_eq argv0 args.proc_name ≡ true
      → (launch k e argv0 args w).outcome ≢ replaced
  unfolding launch help_or_go detach_or_control in_launcher
  launch_once e argv0 args w named h = ground (arith, control_returns e args)

  -- A launcher that runs under the process name that its arguments give, as it does when it has executed
  -- itself, does not execute itself again, whatever its surroundings are.
  pub main_once :
      (e : Surroundings) (args : ArgData) (rest : List Bytes) (w : World)
      → arguments e.os e.junk rest ≡ some args
      → (main k e args.proc_name rest w).outcome ≢ replaced
  unfolding main
  main_once e args rest w accepted h =
      launch_once e args.proc_name args w (str_eq_refl args.proc_name) (ground (arith, accepted))
