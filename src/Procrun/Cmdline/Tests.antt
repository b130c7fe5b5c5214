-- ===== src/Procrun/Cmdline/Tests.antt =====
-- The command line of the service runner on small inputs.
use boundary_event_sdk.Prelude.{
  ◌+◌, ◌*◌, ◌≡◌, refl, true, false, none, some, [], ◌∷◌, ◌++◌, Bytes, codes, length, arith, str_eq,
  starts_with,
}
use boundary_event_sdk.Text.{strchr, strrchr}
use boundary_event_sdk.Procrun.MultiSz.{contents}
use boundary_event_sdk.Procrun.MultiSz.Items.{spell, cons-IsItem}
use boundary_event_sdk.Procrun.Cmdline.{
  cmdline_parse, parse_arguments, executable_name, cut_suffix, slash_command, named_service,
  command_name, command_index, skip_slashes,
}
use boundary_event_sdk.Procrun.Cmdline.Options.{
  Opt, ok, parse_options, assign, set_option, store_value, set_list, mark, quoted, kept_units,
  inline_value, atoul, digits_back, backward,
}
use boundary_event_sdk.Procrun.Cmdline.Accumulate.{arguments}
use boundary_event_sdk.Procrun.Cmdline.Load.{Registry, load_option, save_option, write_list}
use boundary_event_sdk.Procrun.Cmdline.Load.Merged.{save_option-load_option}
use boundary_event_sdk.Procrun.Cmdline.Environment.{load_env_vars, env_option, present}

abbrev startup : Opt
startup = record {
  name = codes "Startup";
  registry = codes "Startup";
  subkey = none;
  is_int = false;
  is_str = true;
  is_exp = false;
  is_msz = false;
  is_reg = false;
  is_srv = true;
  found = false;
  add = false;
  sz_value = none;
  dw_value = 0;
}

abbrev environment : Opt
environment = record {
  name = codes "Environment";
  registry = codes "Environment";
  subkey = none;
  is_int = false;
  is_str = false;
  is_exp = false;
  is_msz = true;
  is_reg = true;
  is_srv = false;
  found = false;
  add = false;
  sz_value = none;
  dw_value = 0;
}

abbrev stored : Bytes
stored = spell (codes "A=1" ∷ []) ++ (0 ∷ [])

abbrev registry : Registry
registry = record { string = λ o. none; number = λ o. 0; multi = λ o. (some stored, 10) }

abbrev same : Bytes → Bytes
same s = s

save_option-load_option_example :
    (set loaded : Opt) × (parse_options
        ((startup ∷ []) ++ (environment ∷ []))
        (arguments (codes "Environment") ((codes "B=2", codes "C=3" ∷ []) ∷ (codes "D=4", []) ∷ []))
      ≡ ok ((startup ∷ []) ++ (set ∷ []), []))
    × (load_option registry same set ≡ some loaded)
    × (save_option loaded
        ≡ write_list none
            (codes "Environment")
            (some (spell (codes "A=1" ∷ codes "B=2" ∷ codes "C=3" ∷ codes "D=4" ∷ []) ++ (0 ∷ [])))
            ((length (spell (codes "A=1" ∷ codes "B=2" ∷ codes "C=3" ∷ codes "D=4" ∷ [])) + 1) * 2)
          ∷ [])
unfolding str_eq
save_option-load_option_example =
    save_option-load_option registry same (codes "Environment") (codes "B=2") (codes "C=3" ∷ [])
      ((codes "D=4", []) ∷ []) (startup ∷ []) [] environment stored (codes "A=1" ∷ []) (omega arith)
      (refl, tt) (omega arith)
      (
        cons-IsItem _ _ (omega arith),
        (cons-IsItem _ _ (omega arith), (cons-IsItem _ _ (omega arith), tt)),
      )
      (refl, refl, refl, refl, refl, refl, refl, refl) (λ p e. refl)
      ((cons-IsItem _ _ (omega arith), tt), ([], refl))

-- A quoted string leaves a zero too many behind it, and the next argument is put behind an empty string:
-- whoever reads the list sees only the first.
hidden_by_quotes :
    parse_options (environment ∷ []) (codes "++Environment='A=1'" ∷ codes "++Environment=B=2" ∷ [])
    ≡ ok (
      record environment {
        found = true;
        add = true;
        sz_value = some (codes "A=1" ++ (0 ∷ 0 ∷ 0 ∷ codes "B=2" ++ (0 ∷ 0 ∷ [])));
        dw_value = 22;
      }
          ∷ [],
      [],
    )
unfolding parse_options assign set_option store_value set_list mark quoted kept_units contents
    inline_value str_eq starts_with
hidden_by_quotes = refl

-- The whole command line of `prunsrv //RS//Tomcat9 --Startup=auto run`
service_command :
    cmdline_parse str_eq
      (λ c. true)
      (codes "RS" ∷ [])
      []
      (startup ∷ [])
      (some (codes "C:\\bin\\tomcat.EXE"))
      (codes "tomcat" ∷ codes "//RS//Tomcat9" ∷ codes "--Startup=auto" ∷ codes "run" ∷ [])
    ≡ ok (record {
      exe_path = codes "C:\\bin";
      executable = codes "tomcat";
      application = codes "Tomcat9";
      cmd_index = 1;
      options = record startup { found = true; sz_value = some (codes "auto") } ∷ [];
      argv = codes "run" ∷ [];
    })
unfolding cmdline_parse parse_arguments executable_name cut_suffix slash_command named_service
    command_name command_index skip_slashes strchr strrchr parse_options assign set_option
    store_value mark inline_value str_eq starts_with
service_command = refl

-- `apxAtoulW` reads a decimal number, and takes one with a sign for its negation modulo 2 ^ 32.
numbers : (atoul (codes "120") ≡ ok 120) × (atoul (codes "-1") ≡ ok 4294967295)
unfolding atoul digits_back backward
numbers = (refl, refl)

-- The environment's value replaces that of the command line.
environment_wins :
    load_env_vars
      (λ name. present (codes "manual"))
      (record startup { found = true; sz_value = some (codes "auto") } ∷ [])
    ≡ ok (record startup { found = true; sz_value = some (codes "manual") } ∷ [])
unfolding load_env_vars env_option
environment_wins = refl
