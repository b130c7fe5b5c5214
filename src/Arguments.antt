-- ===== src/Arguments.antt =====
-- src/native/unix/native/arguments.c and arguments.h: the command line of jsvc. An allocation other than
-- the two tables, the class path and its copy is taken to succeed. The words logged for an error
-- are an `Error`.
pub mod Classpath
pub mod Options
pub mod Loop
pub mod Valid
pub mod Tables
pub mod Order
pub mod Tests
use boundary_event_sdk.Prelude.{
  ℕ, suc, ◌+◌, ◌*◌, ◌-◌, Bool, true, false, not, ◌&&◌, ◌||◌, Option, none, some, List, [], ◌∷◌,
  ◌++◌, Bytes, codes, length, drop, ◌==◌, if◌then◌else◌, starts_with, ℤ, pos, ltb_ℤ, is_some,
}
use boundary_event_sdk.Text.{strchr, strrchr, atoi, strtol, to_int}
use boundary_event_sdk.Arguments.Classpath.{Os, eval_cpath}
use boundary_event_sdk.Arguments.Options.{
  Opt, classpath, jvm, client, server, home, user, cwd, version, showversion, help, extra, debug,
  wait, umask, stop, check, nodetach, keepstdin, service, install, remove, pidfile, outfile,
  errfile, define_alone, define, vm_option, procname, invalid, class_name, classify,
}

-- `arg_data`. The counts `onum` and `anum` are the lengths of the lists, and the global
-- `log_debug_flag`, which `-debug` sets, is kept beside the fields.
pub record ArgData : Type 0 where
  pub pidf : Bytes
  pub user_name : Option Bytes
  pub name : Option Bytes
  pub home_path : Option Bytes
  pub working_dir : Bytes
  pub opts : List Bytes
  pub clas : Option Bytes
  pub args : List Bytes
  pub dtch : Bool
  pub vers : Bool
  pub vershow : Bool
  pub help_page : Bool
  pub chck : Bool
  pub stop_running : Bool
  pub wait_time : ℤ
  pub install_service : Bool
  pub remove_service : Bool
  pub run_service : Bool
  pub out_file : Bytes
  pub err_file : Bytes
  pub proc_name : Bytes
  pub redirectstdin : Bool
  pub umask_bits : ℤ
  pub log_debug : Bool

pub data Error : Type 0 where
  no_memory bad_classpath bad_jvm_name bad_home bad_user bad_cwd bad_wait bad_umask : Error
  bad_pidfile bad_outfile bad_errfile define_without_name define_without_property : Error
  bad_procname no_class : Error
  invalid_option : Bytes → Error

-- The defaults. `vershow` is the one field that `parse` does not set: it holds whatever `malloc`
-- left there.
unfoldable pub defaults : (junk : Bool) → ArgData
defaults junk = record {
  pidf = codes "/var/run/jsvc.pid";
  user_name = none;
  name = none;
  home_path = none;
  working_dir = codes "/";
  opts = [];
  clas = none;
  args = [];
  dtch = true;
  vers = false;
  vershow = junk;
  help_page = false;
  chck = false;
  stop_running = false;
  wait_time = pos 0;
  install_service = false;
  remove_service = false;
  run_service = false;
  out_file = codes "/dev/null";
  err_file = codes "/dev/null";
  proc_name = codes "jsvc.exec";
  redirectstdin = true;
  umask_bits = pos 0o77;
  log_debug = false;
}

-- `optional`: the next argument, unless there is none or it begins with a dash
unfoldable pub optional : List Bytes → Option Bytes
optional [] = none
optional (a ∷ rest) = if starts_with (codes "-") a then none else some a

-- What one round of the loop comes to: an error, `return args`, the next round at the next argument
-- or at the one behind it, or the class, which ends the loop.
pub data Step : Type 0 where
  fail : Error → Step
  finish : ArgData → Step
  next : ArgData → Step
  skip : ArgData → Step
  found : ArgData → Step

pub with_value : Option Bytes → Error → (Bytes → ArgData) → Step
with_value none e set = fail e
with_value (some v) e set = skip (set v)

add_opt : ArgData → Bytes → ArgData
add_opt s a = record s { opts = s.opts ++ a ∷ [] }

-- `-cp`: the value is expanded
set_classpath : Os → ArgData → Option Bytes → Step
unfolding add_opt
set_classpath os s none = fail bad_classpath
set_classpath os s (some temp) = elim (eval_cpath os temp) [
  | none ↦ fail bad_classpath
  | some opt ↦ skip (add_opt s opt)
]

-- `if (args->wait < 10)`, whether or not a value was read
check_wait : ArgData → Step
check_wait s = if ltb_ℤ s.wait_time (pos 10) then fail bad_wait else skip s

set_wait : ArgData → Option Bytes → Step
unfolding check_wait
set_wait s none = check_wait s
set_wait s (some temp) = check_wait (record s { wait_time = atoi temp })

set_umask : ArgData → Option Bytes → Step
set_umask s none = fail bad_umask
set_umask s (some temp) =
    let mask = to_int (strtol 8 temp) in
    if ltb_ℤ mask (pos 2) then fail bad_umask else skip (record s { umask_bits = mask })

-- `temp == argv[x] + 2`: the first '=' stands right behind `-D`
define_property : ArgData → Bytes → Option ℕ → Step
unfolding add_opt
define_property s a none = next (add_opt s a)
define_property s a (some k) = if k == 2 then fail define_without_property else next (add_opt s a)

-- The bodies of the chain, for the argument `a` with the arguments `rest` behind it.
unfoldable pub apply : Os → Opt → (a : Bytes) → (rest : List Bytes) → ArgData → Step
unfolding set_classpath set_wait set_umask define_property with_value add_opt
apply os classpath a rest s = set_classpath os s (optional rest)
apply os jvm a rest s = with_value (optional rest) bad_jvm_name λ v. record s { name = some v }
apply os client a rest s = next (record s { name = some (codes "client") })
apply os server a rest s = next (record s { name = some (codes "server") })
apply os home a rest s = with_value (optional rest) bad_home λ v. record s { home_path = some v }
apply os user a rest s = with_value (optional rest) bad_user λ v. record s { user_name = some v }
apply os cwd a rest s = with_value (optional rest) bad_cwd λ v. record s { working_dir = v }
apply os version a rest s = next (record s { vers = true; dtch = false })
apply os showversion a rest s = next (record s { vershow = true })
apply os help a rest s = finish (record s { help_page = true; dtch = false })
apply os extra a rest s = next s
apply os debug a rest s = next (record s { log_debug = true })
apply os wait a rest s = set_wait s (optional rest)
apply os umask a rest s = set_umask s (optional rest)
apply os stop a rest s = next (record s { stop_running = true })
apply os check a rest s = next (record s { chck = true; dtch = false })
apply os nodetach a rest s = next (record s { dtch = false })
apply os keepstdin a rest s = next (record s { redirectstdin = false })
apply os service a rest s = next (record s { run_service = true })
apply os install a rest s = next (record s { install_service = true })
apply os remove a rest s = next (record s { remove_service = true })
apply os pidfile a rest s = with_value (optional rest) bad_pidfile λ v. record s { pidf = v }
apply os outfile a rest s = with_value (optional rest) bad_outfile λ v. record s { out_file = v }
apply os errfile a rest s = with_value (optional rest) bad_errfile λ v. record s { err_file = v }
apply os define_alone a rest s = fail define_without_name
apply os define a rest s = define_property s a (strchr a b'=')
apply os vm_option a rest s = next (add_opt s a)
apply os procname a rest s = with_value (optional rest) bad_procname λ v. record s { proc_name = v }
apply os invalid a rest s = fail (invalid_option a)
apply os class_name a rest s = found (record s { clas = some a })

-- How the loop ends: with an error, by `return args`, or with the words that stand behind the class.
pub data LoopEnd : Type 0 where
  error : Error → LoopEnd
  returned : ArgData → LoopEnd
  ended : ArgData → List Bytes → LoopEnd

unfoldable pub parse_loop : Os → List Bytes → ArgData → LoopEnd
parse_loop os [] s = ended s []
parse_loop os (a ∷ []) s = elim (apply os (classify a) a [] s) [
  | fail e ↦ error e
  | finish s' ↦ returned s'
  | next s' ↦ ended s' []
  | skip s' ↦ ended s' []
  | found s' ↦ ended s' []
]
parse_loop os (a ∷ b ∷ rest) s = elim (apply os (classify a) a (b ∷ rest) s) [
  | fail e ↦ error e
  | finish s' ↦ returned s'
  | next s' ↦ parse_loop os (b ∷ rest) s'
  | skip s' ↦ parse_loop os rest s'
  | found s' ↦ ended s' (b ∷ rest)
]

pub data Result : Type 0 where
  error : Error → Result
  parsed : ArgData → Result

-- `args->clas == NULL && args->remove == false`, and the loop that copies the rest
pub after_loop : LoopEnd → Result
after_loop (LoopEnd.error e) = error e
after_loop (returned s) = parsed s
after_loop (ended s rest) =
    if not (is_some s.clas) && not s.remove_service
    then error no_class
    else parsed (record s { args = s.args ++ rest })

-- `sizeof(char *)`
abbrev pointer_size : ℕ
pointer_size = 8

-- `parse` on the arguments `rest` behind `argv[0]`; `junk` is what `malloc` left in `vershow`.
unfoldable pub parse : Os → (junk : Bool) → (rest : List Bytes) → Result
unfolding after_loop defaults
parse os junk rest =
    let size = (1 + length rest) * pointer_size in
    if not (os.malloc size)
    then error no_memory
    else after_loop (parse_loop os rest (defaults junk))

-- `arguments` adds the debug dump, which changes nothing.
unfoldable pub arguments : Os → (junk : Bool) → (rest : List Bytes) → Option ArgData
unfolding parse
arguments os junk rest = elim (parse os junk rest) [ error e ↦ none | parsed s ↦ some s ]

-- `log_prog`: what stands behind the last slash of `argv[0]`
unfoldable pub log_prog : Bytes → Bytes
log_prog argv0 = elim (strrchr argv0 b'/') [ none ↦ argv0 | some k ↦ drop (k + 1) argv0 ]
