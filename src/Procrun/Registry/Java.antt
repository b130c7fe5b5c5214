-- ===== src/Procrun/Registry/Java.antt =====
-- What src/native/windows/src/registry.c looks up for Java and for the system: `apxGetJavaSoftHome`,
-- `apxGetJavaSoftRuntimeLib` and `apxGetMaxServiceTimeout`.
use boundary_event_sdk.Prelude.{
  ℕ, ◌≡◌, refl, Bool, true, false, not, Option, none, some, [], ◌∷◌, ◌++◌, Bytes, codes,
  if◌then◌else◌,
}
use boundary_event_sdk.Procrun.Cmdline.Options.{ok, atoul}

-- `RegOpenKeyExW` below `HKEY_LOCAL_MACHINE`, for reading; the units that `RegQueryValueExW` writes for
-- `CurrentVersion` of a key; and `__apxGetRegistrySzW`
pub record Lookup : Type 0 where
  pub opens : (key : Bytes) → Bool
  pub current : (key : Bytes) → Option Bytes
  pub string : (key name : Bytes) → Option Bytes

abbrev pub jre_key : Bytes
jre_key = codes "SOFTWARE\\JavaSoft\\Java Runtime Environment\\"

abbrev pub jdk_key : Bytes
jdk_key = codes "SOFTWARE\\JavaSoft\\Java Development Kit\\"

-- The value `name` of the key for the current version, the key being `base` with the version behind it
unfoldable pub current_value : Lookup → (base name : Bytes) → Option Bytes
current_value r base name = if not (r.opens base) then none else elim (r.current base) [
  | none ↦ none
  | some version ↦ if r.opens (base ++ version) then r.string (base ++ version) name else none
]

abbrev pub or_else : Option Bytes → Option Bytes → Option Bytes
or_else none b = b
or_else (some a) b = some a

-- `apxGetJavaSoftHome`; `env` is the variable `JAVA_HOME`, which the second component is afterwards.
unfoldable pub java_soft_home :
    Lookup → (prefer_jre : Bool) → (env : Option Bytes) → Option Bytes × Option Bytes
unfolding current_value
java_soft_home r true env =
    let home = current_value r jre_key (codes "JavaHome") in (home, or_else home env)
java_soft_home r false (some home) = (some home, some home)
java_soft_home r false none = let home = current_value r jdk_key (codes "JavaHome") in (home, home)

-- `apxGetJavaSoftRuntimeLib`
unfoldable pub java_soft_runtime_lib : Lookup → Option Bytes
unfolding current_value
java_soft_runtime_lib r = current_value r jre_key (codes "RuntimeLib")

-- `apxGetMaxServiceTimeout`; `none`: the code reads through a `NULL`, or `apxAtoulW` does not end well.
unfoldable pub max_service_timeout : Lookup → Option ℕ
unfolding atoul
max_service_timeout r =
    if not (r.opens (codes "SYSTEM\\CurrentControlSet\\Control"))
    then some 20000
    else elim (r.string (codes "SYSTEM\\CurrentControlSet\\Control")
        (codes "WaitToKillServiceTimeout")) [
          | none ↦ none
          | some [] ↦ some 20000
          | some (c ∷ s) ↦ elim (atoul (c ∷ s)) [ ok n ↦ some n | _ ↦ none ]
        ]

-- Whatever was asked for first, asking for the home of the JDK after it gives what the first found, if it found one.
pub java_soft_home_again :
    (r : Lookup) (prefer_jre : Bool) (env : Option Bytes) (home : Bytes)
    → (java_soft_home r prefer_jre env).0 ≡ some home
    → (java_soft_home r false ((java_soft_home r prefer_jre env).1)).0 ≡ some home
unfolding java_soft_home
java_soft_home_again r true env home h = rw h refl
java_soft_home_again r false (some e) home h = h
java_soft_home_again r false none home h = rw h refl
