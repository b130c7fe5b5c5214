-- ===== src/Procrun/Registry/Tests.antt =====
-- A registry handle on small inputs.
use boundary_event_sdk.Procrun.Registry.Java.{Lookup, jre_key, java_soft_home, max_service_timeout}
use boundary_event_sdk.Prelude.{
  ℕ, ◌%◌, ◌≡◌, refl, true, false, ◌&&◌, Option, none, some, List, [], ◌∷◌, ◌++◌, Bytes, codes,
  arith, if◌then◌else◌, str_eq, str_eq_refl,
}
use boundary_event_sdk.Procrun.Registry.{
  System, Options, open_key, close_key, close_keys, keys_of, open_params, open_pair, open_software,
  open_user, open_service, open_all, create_registry, no_keys,
}
use boundary_event_sdk.Procrun.Registry.Level.{times}
use boundary_event_sdk.Procrun.Registry.Access.{
  Value, Values, param_software, param_service, State, get_key, use_subkey, get_string, change,
  set_str, string_change,
}
use boundary_event_sdk.Procrun.Registry.Access.Sessions.{
  Access, string_got, str_set, num_set, use_and_close, session_closes,
}
use boundary_event_sdk.Procrun.Registry.Written.{Keeps, stored, get_string-set_str}

-- The values by key and name; a handle stands for the key that its last digit says.
abbrev Table : Type 0
Table = Bytes → Bytes → Option Value

abbrev digit_key : ℕ → Bytes
digit_key k = (k % 10) ∷ []

abbrev put : ℕ → Bytes → Option Value → Table → Table
put k n x w key m = if str_eq (digit_key k) key && str_eq n m then x else w key m

abbrev table : Values
table = record {
  World = Table;
  key_of = λ k w. digit_key k;
  may_query = λ k w. true;
  query = λ k n w. w (digit_key k) n;
  set = λ k n x w. (true, put k n (some x) w);
  delete = λ k n w. (true, put k n none w);
}

table-Keeps : Keeps table
table-Keeps = record {
  set_query = λ k k' n x w e same may. rw (same, str_eq_refl (digit_key k), str_eq_refl n) refl;
  delete_query = λ k k' n w e same. rw (same, str_eq_refl (digit_key k), str_eq_refl n) refl;
}

abbrev fresh : List (Option ℕ) → System
fresh answers = record { answers = answers; asked = []; opened = []; closed = [] }

abbrev both : Options
both = record { software = true; user = false; service = true }

abbrev uses : List Access
uses =
    record {
      op = str_set (some (codes "x"));
      from = param_software;
      subkey = some (codes "Java");
      name = codes "Jvm";
    }
    ∷ record { op = num_set 3; from = param_service; subkey = some (codes "Log"); name = codes "n" }
    ∷ record { op = string_got; from = param_software; subkey = none; name = codes "Jvm" }
    ∷ []

-- The fourth call fails, and the three keys are closed.
fourth_fails :
    (create_registry true none
      (some (codes "s"))
      both
      true
      (fresh (some 1 ∷ some 2 ∷ some 3 ∷ none ∷ []))).1.closed
    ≡ 3 ∷ 1 ∷ 2 ∷ []
unfolding create_registry open_all open_software open_user open_service open_pair open_params
    open_key close_keys close_key keys_of
fourth_fails = refl

session_closes_example :
    let made =
      create_registry true none
        (some (codes "s"))
        both
        true
        (fresh (some 1 ∷ some 2 ∷ some 3 ∷ some 4 ∷ some 5 ∷ none ∷ [])) in
    times 5 ((use_and_close table uses (λ k n. none) (made.0) (made.1)).opened)
    ≡ times 5 ((use_and_close table uses (λ k n. none) (made.0) (made.1)).closed)
session_closes_example =
    session_closes table 5 true none (some (codes "s")) both uses (λ k n. none)
      (fresh (some 1 ∷ some 2 ∷ some 3 ∷ some 4 ∷ some 5 ∷ none ∷ [])) refl

abbrev open_state : State table
open_state =
    (record (no_keys true) { rparam_key = some 7 }, fresh (some 11 ∷ some 21 ∷ []), λ k n. none)

get_string-set_str_example :
    (get_string table param_software (some (codes "Java")) (codes "Jvm") (
      (set_str table param_software
        (some (codes "Java"))
        (codes "Jvm")
        (some (codes "x"))
        open_state).1)).0
    ≡ stored (some (codes "x"))
get_string-set_str_example =
    get_string-set_str table table-Keeps param_software (some (codes "Java")) (codes "Jvm")
      (some (codes "x")) open_state 11 21 (omega arith, tt)
      (unfold use_subkey get_key open_key close_key in refl)
      (unfold use_subkey get_key open_key close_key set_str change string_change in refl)
      (unfold use_subkey get_key open_key close_key set_str change string_change in refl) refl
      (unfold use_subkey get_key open_key close_key set_str change string_change in refl)

abbrev jre_only : Lookup
jre_only = record {
  opens = λ key. true;
  current = λ key. some (codes "1.8");
  string =
      λ key name. if str_eq key (jre_key ++ codes "1.8") then some (key ++ (b':' ∷ name)) else none;
}

-- The JRE is found, and what is found for it is the JDK's home from then on.
jre_found : java_soft_home jre_only false ((java_soft_home jre_only true none).1) ≡ (
  some (codes "SOFTWARE\\JavaSoft\\Java Runtime Environment\\1.8:JavaHome"),
  some (codes "SOFTWARE\\JavaSoft\\Java Runtime Environment\\1.8:JavaHome"),
)
unfolding java_soft_home str_eq
jre_found = refl

-- No JDK, and a time limit that is not stored is read through a `NULL`.
nothing_stored :
    (java_soft_home jre_only false none ≡ (none, none)) × (max_service_timeout jre_only ≡ none)
unfolding java_soft_home max_service_timeout str_eq
nothing_stored = (refl, refl)
