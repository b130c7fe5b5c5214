-- ===== src/Procrun/Cmdline.antt =====
-- The command line of the Windows programs, src/native/windows/src/cmdline.c. Strings are lists of
-- units before the NUL, and allocations of the pool succeed. The comparison that ignores case,
-- `iswalnum` and the path of the module are the system's, so they are parameters.
pub mod Options
pub mod Values
pub mod Accumulate
pub mod Load
pub mod Environment
pub mod Tests
use boundary_event_sdk.Prelude.{
  ℕ, zero, suc, ◌+◌, ltb, Bool, true, false, not, ◌&&◌, ◌||◌, Option, none, some, List, [], ◌∷◌,
  Bytes, length, take, drop, codes, ◌==◌, if◌then◌else◌, str_eq, starts_with,
}
use boundary_event_sdk.Text.{strchr, strrchr}
use boundary_event_sdk.Procrun.Cmdline.Options.{
  Opt, Outcome, ok, rejected, fault, ◌>>=◌, parse_options,
}

-- `APXCMDLINE`, with the options as they are left
pub record Cmdline : Type 0 where
  pub exe_path : Bytes
  pub executable : Bytes
  pub application : Bytes
  pub cmd_index : ℕ
  pub options : List Opt
  pub argv : List Bytes

-- The command, the application and the arguments from which the options are read.
pub record Command : Type 0 where
  pub index : ℕ
  pub service : Bytes
  pub args : List Bytes

-- The 1-based position of a command in a table, or 0.
unfoldable pub command_index : List Bytes → Bytes → ℕ
command_index [] a = 0
command_index (c ∷ cs) a =
    let rest = command_index cs a in if str_eq c a then 1 else if rest == 0 then 0 else suc rest

unfoldable pub first_unit : Bytes → ℕ
first_unit [] = 0
first_unit (c ∷ s) = c

unfoldable pub skip_slashes : Bytes → Bytes
skip_slashes [] = []
skip_slashes (c ∷ s) = let rest = skip_slashes s in if c == b'/' then rest else c ∷ s

-- What follows the command of `//CMD//Application`, when there is any.
unfoldable pub named_service : (executable ca : Bytes) → Bytes
unfolding skip_slashes
named_service executable ca = elim (strchr ca b'/') [
  | none ↦ executable
  | some k ↦ elim (skip_slashes (drop (suc k) ca)) [ [] ↦ executable | c ∷ s ↦ c ∷ s ]
]

unfoldable pub command_name : Bytes → Bytes
command_name ca = elim (strchr ca b'/') [ none ↦ ca | some k ↦ take k ca ]

-- `//CMD//Application`
unfoldable pub slash_command :
    (commands : List Bytes) (executable ca : Bytes) (args : List Bytes) → Outcome Command
unfolding command_index command_name named_service
slash_command commands executable ca args =
    let i = command_index commands (command_name ca) in
    if i == 0
    then rejected
    else ok (record { index = i; service = named_service executable ca; args = args })

module _ (same_ignoring_case : Bytes → Bytes → Bool) (iswalnum : ℕ → Bool) where
  -- `command Application`
  unfoldable pub word_service : (i : ℕ) (executable : Bytes) → List Bytes → Command
  unfolding first_unit
  word_service i executable [] = record { index = i; service = executable; args = [] }
  word_service i executable (cn ∷ args) =
      if iswalnum (first_unit cn)
      then record { index = i; service = cn; args = args }
      else record { index = i; service = executable; args = cn ∷ args }

  unfoldable pub word_command :
      (altcmds : List Bytes) (executable ca : Bytes) (args : List Bytes) → Outcome Command
  unfolding command_index word_service
  word_command altcmds executable ca args =
      let i = command_index altcmds ca in
      if i == 0 then rejected else ok (word_service i executable args)

  unfoldable pub cut_suffix : List Bytes → Bytes → Bytes
  cut_suffix [] s = s
  cut_suffix (suffix ∷ suffixes) s =
      let rest = cut_suffix suffixes s in
      elim (strrchr s b'.') [
        | none ↦ s
        | some k ↦ if same_ignoring_case (drop k s) suffix then take k s else rest
      ]

  -- The name of the program without `.EXE` and without the suffix of its processor.
  unfoldable pub executable_name : Bytes → Bytes
  unfolding cut_suffix
  executable_name s =
      cut_suffix (codes ".X86" ∷ codes ".X64" ∷ codes ".I64" ∷ [])
        (cut_suffix (codes ".EXE" ∷ []) s)

  module _ (commands altcmds : List Bytes) (options : List Opt) where
    -- The arguments behind `argv[0]`; with no command, no option is read.
    unfoldable pub parse_arguments : (exe_path executable : Bytes) → List Bytes → Outcome Cmdline
    unfolding slash_command word_command
    parse_arguments exe_path executable [] = ok (record {
      exe_path = exe_path;
      executable = executable;
      application = executable;
      cmd_index = 1;
      options = options;
      argv = [];
    })
    parse_arguments exe_path executable (cp ∷ args) =
        if ltb 2 (length cp)
        then (do
          command ←
              if starts_with (codes "//") cp
              then slash_command commands executable (drop 2 cp) args
              else word_command altcmds executable cp args
          (read, rest) ← parse_options options (command.args)
          ok (record {
            exe_path = exe_path;
            executable = executable;
            application = command.service;
            cmd_index = command.index;
            options = read;
            argv = rest;
          }))
        else ok (record {
          exe_path = exe_path;
          executable = executable;
          application = executable;
          cmd_index = 1;
          options = options;
          argv = [];
        })

    -- `apxCmdlineParse`; `module_path` is what `GetModuleFileNameW` and `GetLongPathNameW` give.
    unfoldable pub cmdline_parse :
        (module_path : Option Bytes) (argv : List Bytes) → Outcome Cmdline
    unfolding parse_arguments executable_name
    cmdline_parse module_path [] = rejected
    cmdline_parse none (a ∷ args) = rejected
    cmdline_parse (some mh) (a ∷ args) = elim (strrchr mh b'\\') [
      | none ↦ rejected
      | some k ↦ parse_arguments (take k mh) (executable_name (drop (suc k) mh)) args
    ]
