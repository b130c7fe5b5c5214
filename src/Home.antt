-- ===== src/Home.antt =====
-- src/native/unix/native/home.c: find the Java home, and the JVM libraries under it. Paths are made by
-- `replace` in buffers of 1024 bytes on the stack, whose bytes before that are `stack`; allocations
-- succeed.
pub mod Locations
pub mod Names
pub mod Libraries
pub mod Origin
pub mod Tests
use boundary_event_sdk.Prelude.{
  ℕ, zero, suc, ◌+◌, Bool, true, false, not, ◌&&◌, ◌||◌, Option, none, some, List, [], ◌∷◌, ◌++◌,
  Bytes, codes, str_eq, ◌==◌, if◌then◌else◌, ℤ, pos, negsuc,
}
use boundary_event_sdk.Replace.Memory.{Mem, c_string}
use boundary_event_sdk.Replace.{replace}
use boundary_event_sdk.Home.Locations.{
  java_home, vm_name, location_home, location_jvm_cfg, location_jvm_default,
  location_jvm_configured,
}

-- What `stat` says of a path
pub data Kind : Type 0 where
  missing : Kind
  directory : Kind
  regular : Kind
  special : Kind

pub record Files : Type 0 where
  pub stat : Bytes → Kind
  -- the bytes of a file that `fopen` can read
  pub content : Bytes → Option Bytes
  pub getenv_java_home : Option Bytes
  pub cpu : Bytes
  pub stack : Mem

pub record HomeJvm : Type 0 where
  pub name : Option Bytes
  pub libr : Bytes

-- `jnum` is the length of `jvms`.
pub record HomeData : Type 0 where
  pub path : Bytes
  pub cfgf : Option Bytes
  pub jvms : List HomeJvm

abbrev is_blank : ℕ → Bool
is_blank c = c == b' ' || c == 9 || c == b'-'

-- "Clear the string at the first occurrence of '#'", and of ' '
unfoldable pub cut_at : ℕ → Bytes → Bytes
cut_at d [] = []
cut_at d (c ∷ s) = let rest = cut_at d s in if c == d then [] else c ∷ rest

-- "Trim the string (including leading '-' chars"
unfoldable pub skip_blanks : Bytes → Bytes
skip_blanks [] = []
skip_blanks (c ∷ s) = let rest = skip_blanks s in if is_blank c then rest else c ∷ s

abbrev is_trailing : ℕ → Bool
is_trailing c = c == 13 || c == 10 || c == 9 || c == b' '

unfoldable pub trim_end : Bytes → Bytes
trim_end [] = []
trim_end (c ∷ s) = elim (trim_end s) [
  | [] ↦ if is_trailing c then [] else c ∷ []
  | d ∷ t ↦ c ∷ d ∷ t
]

-- The name of a VM in a line of the configuration
unfoldable pub line_name : Bytes → Bytes
line_name line = cut_at b' ' (trim_end (skip_blanks (cut_at b'#' line)))

-- The lines as `fgets(buf, 1024, cfgf)` reads them from a text file with no NUL in it: up to a newline, at most 1023 bytes; `line` is what
-- is read so far, `room` what still fits.
unfoldable pub lines_from : (line : Bytes) → (room : ℕ) → Bytes → List Bytes
lines_from [] room [] = []
lines_from (c ∷ line) room [] = (c ∷ line) ∷ []
lines_from line zero (c ∷ s) =
    line ∷ (if c == 10 then (c ∷ []) ∷ lines_from [] 1023 s else lines_from (c ∷ []) 1022 s)
lines_from line (suc room) (c ∷ s) =
    let ended = lines_from [] 1023 s in
    let more = lines_from (line ++ c ∷ []) room s in
    if c == 10 then (line ++ c ∷ []) ∷ ended else more

-- "Did we find something significant?": a VM with its library goes before those of the lines behind it;
-- `false` ends the loop.
unfoldable pub add_jvm :
    (name : Bytes) → Option (Option Bytes) → Bool × List HomeJvm → Bool × List HomeJvm
add_jvm [] library rest = rest
add_jvm (c ∷ s) none rest = (false, [])
add_jvm (c ∷ s) (some none) rest = rest
add_jvm (c ∷ s) (some (some libf)) (ok, jvms) =
    (ok, record { name = some (c ∷ s); libr = libf } ∷ jvms)

module _ (files : Files) where
  open files use {stat, content, getenv_java_home, cpu, stack}

  unfoldable pub checkdir : Bytes → Bool
  checkdir path = elim (stat path) [ directory ↦ true | _ ↦ false ]

  unfoldable pub checkfile : Bytes → Bool
  checkfile path = elim (stat path) [ regular ↦ true | _ ↦ false ]

  -- `replace(buf, 1024, template, word, value)`: what `buf` holds, or `none` for a result other than 0
  unfoldable pub expand : (template word value : Bytes) → Option Bytes
  expand template word value =
      let (k, buf) = replace false stack (pos 1024) (some template) (some word) (some value) in
      elim k [ pos zero ↦ some (c_string 1024 buf 0) | pos (suc n) ↦ none | negsuc n ↦ none ]

  -- A search through a table: the first path that is a file, `none` inside `some` if there is none;
  -- `none` if a path does not fit.
  unfoldable pub first_file : (make : Bytes → Option Bytes) → List Bytes → Option (Option Bytes)
  first_file make [] = some none
  first_file make (t ∷ ts) =
      let rest = first_file make ts in
      elim (make t) [ none ↦ none | some p ↦ if checkfile p then some (some p) else rest ]

  -- "Can't replace home in VM library", and the name in turn
  unfoldable pub configured_path : (home name : Bytes) → Bytes → Option Bytes
  configured_path home name template = elim (expand template java_home home) [
    | none ↦ none
    | some temp ↦ expand temp vm_name name
  ]

  -- `false` beside the VMs found so far if a path does not fit
  unfoldable pub parse_lines : (home : Bytes) → List Bytes → Bool × List HomeJvm
  parse_lines home [] = (true, [])
  parse_lines home (line ∷ lines) =
      let name = line_name line in
      let rest = parse_lines home lines in
      let library = first_file (configured_path home name) (location_jvm_configured cpu) in
      add_jvm name library rest

  -- `parse`; `build` goes on when it fails, with the VMs found so far.
  unfoldable pub parse : (home cfgf : Bytes) → Bool × List HomeJvm
  parse home cfgf = elim (content cfgf) [
    | none ↦ (false, [])
    | some text ↦ parse_lines home (lines_from [] 1023 text)
  ]

  -- "trying to locate the default Java Virtual Machine library"
  unfoldable pub default_jvm : (home : Bytes) → Option HomeData
  default_jvm home = elim (first_file (λ t. expand t java_home home) (location_jvm_default cpu)) [
    | none ↦ none
    | some none ↦ some (record { path = home; cfgf = none; jvms = [] })
    | some (some libr) ↦
        some (record { path = home; cfgf = none; jvms = record { name = none; libr = libr } ∷ [] })
  ]

  unfoldable pub build : (home : Bytes) → Option HomeData
  build home =
      let default = default_jvm home in
      if not (checkdir home)
      then none
      else elim (first_file (λ t. expand t java_home home) (location_jvm_cfg cpu)) [
        | none ↦ none
        | some none ↦ default
        | some (some cfgf) ↦
            some (record { path = home; cfgf = some cfgf; jvms = (parse home cfgf).1 })
      ]

  -- `path == NULL || *path == '\0' || strcmp(path, "/") == 0`
  unfoldable pub unusable : Option Bytes → Bool
  unusable none = true
  unusable (some []) = true
  unusable (some (c ∷ s)) = str_eq (c ∷ s) (codes "/")

  unfoldable pub first_home : List Bytes → Option HomeData
  first_home [] = none
  first_home (p ∷ ps) = let rest = first_home ps in elim (build p) [ none ↦ rest | some d ↦ some d ]

  unfoldable pub find_at : Option Bytes → Option HomeData
  find_at none = first_home location_home
  find_at (some path) = build path

  -- `find`, and `home`, which adds the debug dump: the command line, the environment, the usual places
  unfoldable pub home : Option Bytes → Option HomeData
  home path =
      let named = if unusable path then getenv_java_home else path in
      if unusable named then first_home location_home else find_at named
