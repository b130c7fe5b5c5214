-- ===== src/Arguments/Tests.antt =====
-- Command lines, and the theorems on `parse` at them.
use boundary_event_sdk.Prelude.{
  ◌≡◌, ◌⊎◌, refl, true, false, some, List, [], ◌∷◌, ◌++◌, Bytes, codes, pos, str_eq, starts_with,
  is_some,
}
use boundary_event_sdk.Text.{strchr, atoi, strtol, to_int}
use boundary_event_sdk.Arguments.Classpath.{Os, java_classpath, parts, eval_cpath}
use boundary_event_sdk.Arguments.Classpath.Expansion.{join, expanded, eval_cpath_expands}
use boundary_event_sdk.Arguments.Options.{classify}
use boundary_event_sdk.Arguments.{
  ArgData, parse, parsed, parse_loop, apply, defaults, optional, error, bad_wait, no_class,
}
use boundary_event_sdk.Arguments.Valid.{IsValid, parse-IsValid}
use boundary_event_sdk.Arguments.Order.{Split, parse_class}

-- Memory is there, and the only jar is /lib/a.jar.
abbrev system : Os
system = record {
  malloc = λ n. true;
  realloc = λ n. true;
  glob = λ p. some ([], codes "/lib/a.jar");
}

abbrev words : List Bytes
words =
    codes "-cp"
    ∷ codes "/x:/lib/*"
    ∷ codes "-wait"
    ∷ codes "30"
    ∷ codes "-Da=b"
    ∷ codes "-nodetach"
    ∷ codes "Main"
    ∷ codes "-x"
    ∷ []

abbrev data_words : ArgData
data_words = record (unfold defaults in defaults true) {
  opts = codes "-Djava.class.path=/x:/lib/a.jar" ∷ codes "-Da=b" ∷ [];
  wait_time = pos 30;
  dtch = false;
  clas = some (codes "Main");
  args = codes "-x" ∷ [];
}

parse-words : parse system true words ≡ parsed data_words
unfolding parse parse_loop apply classify defaults optional strchr atoi strtol to_int eval_cpath
    str_eq starts_with
parse-words = refl

refused_wait : parse system true (codes "-wait" ∷ codes "9" ∷ codes "Main" ∷ []) ≡ error bad_wait
unfolding parse parse_loop apply classify defaults optional strchr atoi strtol to_int eval_cpath
    str_eq starts_with
refused_wait = refl

no_class_given : parse system true (codes "-debug" ∷ []) ≡ error no_class
unfolding parse parse_loop apply classify defaults optional strchr atoi strtol to_int eval_cpath
    str_eq starts_with
no_class_given = refl

parse-IsValid_example :
    IsValid data_words
    × ((data_words.help_page ≡ true)
        ⊎ ((is_some data_words.clas ≡ true) ⊎ (data_words.remove_service ≡ true)))
parse-IsValid_example = parse-IsValid system true words data_words parse-words

parse_class_example : Split words (codes "Main") data_words.args
parse_class_example = parse_class system true words data_words (codes "Main") parse-words refl

eval_cpath_expands_example :
    eval_cpath system (codes "/x:/lib/*:")
    ≡ some (java_classpath ++ join (expanded system (parts (codes "/x:/lib/*:"))))
eval_cpath_expands_example = eval_cpath_expands system (λ n. refl) (codes "/x:/lib/*:")
