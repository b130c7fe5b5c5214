-- ===== src/Java.antt =====
-- `java_library` of src/native/unix/native/java.c, which picks the JVM's library, and the options that
-- `java_init` hands to the JVM.
pub mod Choice
mod Tests
use boundary_event_sdk.Prelude.{
  ℕ, Bool, true, false, Option, none, some, List, [], ◌∷◌, ◌++◌, Bytes, codes, str_eq,
  if◌then◌else◌,
}
use boundary_event_sdk.Text.{decimal}
use boundary_event_sdk.Arguments.{ArgData}
use boundary_event_sdk.Home.{HomeJvm, HomeData}

-- `strcmp(args->name, data->jvms[x]->name) == 0`, for a VM that has a name
abbrev pub is_named : Bytes → HomeJvm → Bool
is_named wanted j = elim (j.name) [ none ↦ false | some n ↦ str_eq wanted n ]

unfoldable pub find_named : (wanted : Bytes) → List HomeJvm → Option Bytes
find_named wanted [] = none
find_named wanted (j ∷ js) =
    let rest = find_named wanted js in if is_named wanted j then some (j.libr) else rest

-- "Using default JVM": the first one
abbrev pub first_library : List HomeJvm → Option Bytes
first_library [] = none
first_library (j ∷ js) = some (j.libr)

unfoldable pub java_library : ArgData → HomeData → Option Bytes
java_library args d = elim (args.name) [
  | none ↦ first_library d.jvms
  | some wanted ↦ find_named wanted d.jvms
]

-- The strings of the options, the last of which has `java_abort123` beside it
unfoldable pub vm_options : ArgData → (pid ppid : ℕ) → (version : Bytes) → List Bytes
vm_options args pid ppid version =
    args.opts
    ++ (codes "-Dcommons.daemon.process.id=" ++ decimal pid)
      ∷ (codes "-Dcommons.daemon.process.parent=" ++ decimal ppid)
      ∷ (codes "-Dcommons.daemon.version=" ++ version)
      ∷ codes "abort"
      ∷ []
