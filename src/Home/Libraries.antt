-- ===== src/Home/Libraries.antt =====
-- Which libraries are found.
use boundary_event_sdk.Prelude.{
  ℕ, ◌<◌, ◌≡◌, ◌⊎◌, inl, inr, refl, Bool, true, false, Option, none, some, List, [], ◌∷◌, ◌++◌,
  Bytes, length, pos, arith, Bool-cases, Option-cases,
}
use boundary_event_sdk.Replace.Memory.{c_string-Holds, NoNul}
use boundary_event_sdk.Replace.Substitution.{substitute}
use boundary_event_sdk.Replace.Contract.{replace_fits}
use boundary_event_sdk.Replace.{replace}
use boundary_event_sdk.Home.Locations.{
  java_home, location_jvm_cfg, location_jvm_default, location_jvm_configured,
}
use boundary_event_sdk.Home.{
  Files, HomeJvm, HomeData, line_name, lines_from, add_jvm, checkdir, checkfile, expand, first_file,
  configured_path, parse_lines, parse, default_jvm, build,
}

module _ (files : Files) where
  open files use {stat, content, cpu, stack}

  -- If the template and the path fit the buffer, the buffer holds the template with the word replaced.
  pub expand-substitutes :
      (template : Bytes) (x : ℕ) (word value : Bytes)
      → NoNul template
      → NoNul value
      → length template < 1024
      → length (substitute (x ∷ word) value 0 template) < 1024
      → expand files template (x ∷ word) value ≡ some (substitute (x ∷ word) value 0 template)
  unfolding expand
  expand-substitutes template x word value text by fits_old fits =
      let (code, holds, kept) =
        replace_fits stack 1024 template x word value text by fits_old fits 1024 (omega arith) in
      ground (
        arith,
        code,
        c_string-Holds 1024
            (replace false stack (pos 1024) (some template) (some (x ∷ word)) (some value)).1 0
            (substitute (x ∷ word) value 0 template) holds fits,
      )

  -- No template makes the path of a file.
  abbrev pub NoFile : (make : Bytes → Option Bytes) → List Bytes → Type 0
  NoFile make [] = Unit {0}
  NoFile make (t ∷ ts) =
      ((p : Bytes) × (make t ≡ some p) × (checkfile files p ≡ false)) × NoFile make ts

  -- `p` is the path of the first template that makes one of a file.
  pub record Chosen (make : Bytes → Option Bytes) (ts : List Bytes) (p : Bytes) : Type 0 where
    pub front : List Bytes
    pub template : Bytes
    pub back : List Bytes
    pub splits : ts ≡ front ++ template ∷ back
    pub skipped : NoFile make front
    pub made : make template ≡ some p
    pub is_file : checkfile files p ≡ true

  first_file-cases :
      (make : Bytes → Option Bytes) (t : Bytes) (ts : List Bytes) (p : Bytes)
      → first_file files make (t ∷ ts) ≡ some (some p)
      → ((make t ≡ some p) × (checkfile files p ≡ true))
        ⊎ ((q : Bytes) × (make t ≡ some q)
            × (checkfile files q ≡ false)
            × (first_file files make ts ≡ some (some p)))
  unfolding first_file
  first_file-cases make t ts p h = elim (Option-cases (make t)) [
    | inl no_room ↦ inl (ground (arith, no_room))
    | inr (q, made) ↦ elim (Bool-cases (checkfile files q)) [
      | inl here ↦ inl (ground (arith, made, here))
      | inr not_here ↦ inr (q, made, not_here, ground (arith, made, not_here))
    ]
  ]

  -- A search through a table finds the path of the first template that names a file.
  pub first_file-Chosen :
      (make : Bytes → Option Bytes) (ts : List Bytes) (p : Bytes)
      → first_file files make ts ≡ some (some p)
      → Chosen make ts p
  unfolding first_file
  first_file-Chosen make [] p h = cc
  first_file-Chosen make (t ∷ ts) p h = elim (first_file-cases make t ts p h) [
    | inl (made, here) ↦ record {
      front = [];
      template = t;
      back = ts;
      splits = refl;
      skipped = tt;
      made = made;
      is_file = here;
    }
    | inr (q, made, not_here, later) ↦
        let rest = first_file-Chosen make ts p later in
        record {
          front = t ∷ rest.front;
          template = rest.template;
          back = rest.back;
          splits = rw (rest.splits) refl;
          skipped = ((q, made, not_here), rest.skipped);
          made = rest.made;
          is_file = rest.is_file;
        }
  ]

  -- Every library of the list is a file, and a VM that has a name is named by a line.
  abbrev pub AllFiles : List HomeJvm → Type 0
  AllFiles [] = Unit {0}
  AllFiles (j ∷ js) = (checkfile files j.libr ≡ true) × AllFiles js

  parse_lines-AllFiles :
      (home : Bytes) (lines : List Bytes) → AllFiles (parse_lines files home lines).1
  unfolding parse_lines add_jvm
  parse_lines-AllFiles home [] = tt
  parse_lines-AllFiles home (line ∷ lines) =
      added (line_name line) _ (parse_lines files home lines)
        (λ p e.
          (first_file-Chosen (configured_path files home (line_name line))
            (location_jvm_configured cpu) p e).is_file)
        (parse_lines-AllFiles home lines)
    where
      added :
          (name : Bytes) (library : Option (Option Bytes)) (rest : Bool × List HomeJvm)
          → ((p : Bytes) → library ≡ some (some p) → checkfile files p ≡ true)
          → AllFiles rest.1
          → AllFiles (add_jvm name library rest).1
      added [] library rest h all = all
      added (c ∷ s) none rest h all = tt
      added (c ∷ s) (some none) rest h all = all
      added (c ∷ s) (some (some p)) (ok, jvms) h all = (h p refl, all)

  parse-AllFiles : (home cfgf : Bytes) → AllFiles (parse files home cfgf).1
  unfolding parse
  parse-AllFiles home cfgf = elim (Option-cases (content cfgf)) [
    | inl absent ↦ rw (absent, parse) tt
    | inr (text, holds) ↦ rw (holds, parse) (parse_lines-AllFiles home (lines_from [] 1023 text))
  ]

  -- What is known of a Java home that is found
  pub record IsHome (path : Bytes) (d : HomeData) : Type 0 where
    pub same_path : d.path ≡ path
    pub is_directory : checkdir files path ≡ true
    pub all_files : AllFiles d.jvms

  default_jvm-IsHome :
      (path : Bytes) (d : HomeData)
      → default_jvm files path ≡ some d
      → (d.path ≡ path) × AllFiles d.jvms
  unfolding default_jvm
  default_jvm-IsHome path d h =
      elim (Option-cases
        (first_file files (λ t. expand files t java_home path) (location_jvm_default cpu))) [
          | inl no_room ↦ ground (arith, no_room)
          | inr (none, nothing) ↦ ground (arith, nothing)
          | inr (some p, it) ↦ ground (
            arith,
            it,
            (first_file-Chosen (λ t. expand files t java_home path) (location_jvm_default cpu) p
                it).is_file,
          )
        ]

  -- A Java home that `build` returns is a directory, and each of its libraries is a file.
  pub build-IsHome : (path : Bytes) (d : HomeData) → build files path ≡ some d → IsHome path d
  unfolding build
  build-IsHome path d h =
      elim (Option-cases
        (first_file files (λ t. expand files t java_home path) (location_jvm_cfg cpu))) [
          | inl no_room ↦ ground (arith, no_room)
          | inr (none, nothing) ↦ ground (arith, nothing, default_jvm-IsHome path d)
          | inr (some p, it) ↦ ground (arith, it, parse-AllFiles path p)
        ]
