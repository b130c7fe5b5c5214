-- ===== src/Daemon/Main.antt =====
-- `main` of src/native/unix/native/jsvc-unix.c, as it is built on Linux, put together from its parts. The
-- steps that it takes in the system are listed in their order.
pub mod Checks
mod Tests
use boundary_event_sdk.Prelude.{
  ℕ, ◌+◌, Bool, true, false, not, ◌&&◌, ◌||◌, Option, none, some, List, [], ◌∷◌, ◌++◌, Bytes,
  str_eq, take, ltb, leb, if◌then◌else◌, ℤ, pos, negsuc, is_some,
}
use boundary_event_sdk.Text.{strchr, strrchr}
use boundary_event_sdk.Arguments.Classpath.{Os}
use boundary_event_sdk.Arguments.{ArgData, arguments}
use boundary_event_sdk.Home.{Files, HomeData, home}
use boundary_event_sdk.Java.{java_library}
use boundary_event_sdk.Daemon.Kernel.{Kernel, sigterm}
use boundary_event_sdk.Daemon.Users.{Account, checkuser}
use boundary_event_sdk.Daemon.Wait.{stop_child, wait_child}
use boundary_event_sdk.Daemon.Controller.{Round, run_controller}
use boundary_event_sdk.Daemon.Output.{Answers, Streams, set_output}

-- What `fork` returned: -1, the child's pid, or 0
pub data Fork : Type 0 where
  fork_failed : Fork
  in_parent : (pid : ℕ) → Fork
  in_child : Fork

-- What is outside the program
pub record Surroundings : Type 0 where
  pub os : Os
  pub junk : Bool
  pub files : Files
  pub account : Account
  pub ld_library_path : Option Bytes
  -- `readlink("/proc/self/exe", …)`, if it gives anything
  pub self_exe : Option Bytes
  -- whether `execve` succeeds, and then does not return
  pub executes : Bool
  pub detach : Fork
  pub answers : Answers
  pub streams : Streams
  -- the time, and the rounds of the controller
  pub now : ℕ
  pub rounds : List Round

pub data Step : Type 0 where
  stop_asked : Step
  help_printed : Step
  library_path : Bytes → Step
  executed : (file : Bytes) → Step
  detached : Step
  session : Step
  directory_changed : Bytes → Step
  umask_set : ℤ → Step
  output_set : Streams → Step
  controlled : Step
  logger_killed : Step

-- `replaced`: `execve` does not return. `waiting`: the controller still waits for its child.
pub data Outcome : Type 0 where
  returned : ℤ → Outcome
  replaced : Outcome
  waiting : Outcome

pub record Launch : Type 0 where
  pub steps : List Step
  pub outcome : Outcome

abbrev pub leaves : ℤ → Launch
leaves n = record { steps = []; outcome = returned n }

abbrev pub then_do : List Step → Launch → Launch
then_do steps l = record { steps = steps ++ l.steps; outcome = l.outcome }

-- What stands before the last slash
unfoldable pub parent_of : Bytes → Bytes
parent_of path = elim (strrchr path b'/') [ none ↦ path | some k ↦ take k path ]

abbrev colon : Bytes
colon = b':' ∷ []

-- `snprintf(buf, 2048, …)` of the old path and the two directories above the library
unfoldable pub new_path : (old : Option Bytes) → (libf : Bytes) → Bytes
new_path none libf = take 2047 (parent_of libf ++ colon ++ parent_of (parent_of libf))
new_path (some old) libf =
    take 2047 (old ++ colon ++ parent_of libf ++ colon ++ parent_of (parent_of libf))

abbrev path_steps : Surroundings → (library : Option Bytes) → List Step
path_steps e library = elim library [
  | none ↦ []
  | some libf ↦ library_path (new_path (e.ld_library_path) libf) ∷ []
]

abbrev self_name : Surroundings → (argv0 : Bytes) → Bytes
self_name e argv0 = elim (e.self_exe) [ none ↦ argv0 | some f ↦ f ]

-- "REPLACE this current process image with another one".
unfoldable pub reexecute : Surroundings → (argv0 : Bytes) → (library : Option Bytes) → Launch
reexecute e argv0 library =
    if not (is_some (strchr argv0 b'/'))
    then leaves (pos 1)
    else then_do (path_steps e library) (record {
      steps = executed (self_name e argv0) ∷ [];
      outcome = if e.executes then replaced else returned (pos 1);
    })

abbrev library_of : ArgData → Option HomeData → Option Bytes
library_of args none = none
library_of args (some d) = java_library args d

abbrev result_of : Option ℕ → Outcome
result_of none = waiting
result_of (some n) = returned (pos n)

-- From `chdir` on; the logger of `set_output` is stopped when the controller returns.
unfoldable pub control : Surroundings → ArgData → Launch
control e args =
    let streams =
      set_output (e.answers) args.log_debug args.out_file args.err_file args.redirectstdin
        (e.streams) in
    let res = (run_controller args (e.now) (e.rounds)).result in
    record {
      steps =
          directory_changed args.working_dir
          ∷ umask_set args.umask_bits
          ∷ output_set streams
          ∷ controlled
          ∷ (if streams.logger && is_some res then logger_killed ∷ [] else []);
      outcome = result_of res;
    }

module _ (k : Kernel) where
  open k use {World}

  -- "If we're in the parent process"
  unfoldable pub in_launcher : ArgData → (pid : ℕ) → World → Launch
  in_launcher args pid w = elim (args.wait_time) [
    | pos n ↦ if leb 10 n then leaves (pos (wait_child k args n (pos pid) w).0) else leaves (pos 0)
    | negsuc n ↦ leaves (pos 0)
  ]

  -- "If we have to detach, let's do it now"
  unfoldable pub detach_or_control : Surroundings → ArgData → World → Launch
  detach_or_control e args w =
      let here = control e args in
      if args.dtch
      then elim (e.detach) [
        | fork_failed ↦ leaves (pos 1)
        | in_parent pid ↦ then_do (detached ∷ []) (in_launcher args pid w)
        | in_child ↦ then_do (detached ∷ session ∷ []) here
      ]
      else here

  -- Behind the test of the user and the search for the Java home
  unfoldable pub help_or_go :
      Surroundings → (argv0 : Bytes) → (library : Option Bytes) → ArgData → World → Launch
  help_or_go e argv0 library args w =
      if args.help_page
      then then_do (help_printed ∷ []) (leaves (pos 0))
      else if not (str_eq argv0 args.proc_name)
      then reexecute e argv0 library
      else detach_or_control e args w

  unfoldable pub launch : Surroundings → (argv0 : Bytes) → ArgData → World → Launch
  launch e argv0 args w =
      let user = checkuser args.user_name (e.account) in
      let java = home (e.files) args.home_path in
      if args.stop_running
      then then_do (stop_asked ∷ []) (leaves (stop_child k args w).0)
      else if not (is_some user) || not (is_some java)
      then leaves (pos 1)
      else help_or_go e argv0 (library_of args java) args w

  unfoldable pub main : Surroundings → (argv0 : Bytes) → (rest : List Bytes) → World → Launch
  main e argv0 rest w = elim (arguments (e.os) (e.junk) rest) [
    | none ↦ leaves (pos 1)
    | some args ↦ launch e argv0 args w
  ]
