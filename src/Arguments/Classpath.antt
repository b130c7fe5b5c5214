-- ===== src/Arguments/Classpath.antt =====
-- `memstrcat`, `eval_ppath` and `eval_cpath` of src/native/unix/native/arguments.c: the class path that
-- is handed to the JVM. The allocator and `glob` are the system's.
pub mod Expansion
use boundary_event_sdk.Prelude.{
  ℕ, ◌+◌, ◌-◌, Bool, true, false, Option, none, some, List, [], ◌∷◌, ◌++◌, Bytes, codes, length,
  ◌==◌, ltb, if◌then◌else◌,
}

-- `malloc n` and `realloc n` say whether a block of `n` bytes is to be had. `glob` gives the paths that
-- match, the last of them apart, since it succeeds only with a match; `none` is any other outcome.
pub record Os : Type 0 where
  pub malloc : ℕ → Bool
  pub realloc : ℕ → Bool
  pub glob : Bytes → Option (List Bytes × Bytes)

-- `PATH_MAX`
abbrev pub path_max : ℕ
path_max = 4096

abbrev pub java_classpath : Bytes
java_classpath = codes "-Djava.class.path="

abbrev pub bytes_of : Option Bytes → Bytes
bytes_of none = []
bytes_of (some s) = s

-- The parts between the colons: `strchr(ptr, ':')` again and again.
unfoldable pub first_with : ℕ → List Bytes → List Bytes
first_with c [] = (c ∷ []) ∷ []
first_with c (p ∷ ps) = (c ∷ p) ∷ ps

unfoldable pub parts : Bytes → List Bytes
unfolding first_with
parts [] = [] ∷ []
parts (c ∷ s) = let rest = parts s in if c == b':' then [] ∷ rest else first_with c rest

-- Does the part end with an asterisk?
unfoldable pub ends_with_star : Bytes → Bool
ends_with_star [] = false
ends_with_star (c ∷ []) = c == b'*'
ends_with_star (c ∷ d ∷ s) = ends_with_star (d ∷ s)

abbrev pub first_part : List Bytes → Bytes
first_part [] = []
first_part (p ∷ ps) = p

module _ (os : Os) where
  unfoldable pub memstrcat : (ptr str add : Option Bytes) → Option Bytes
  memstrcat ptr str add =
      if os.realloc (1 + length (bytes_of ptr) + length (bytes_of str) + length (bytes_of add))
      then some (bytes_of ptr ++ (bytes_of str ++ bytes_of add))
      else none

  -- The loop over `gl_pathv`: each path with a colon but the last.
  pub add_paths : Option Bytes → List Bytes → Bytes → Option Bytes
  add_paths strcp [] last = memstrcat strcp (some last) none
  add_paths strcp (path ∷ paths) last = elim (memstrcat strcp (some path) (some (codes ":"))) [
    | none ↦ none
    | some strcp' ↦ add_paths (some strcp') paths last
  ]

  pub eval_ppath : Option Bytes → (pattern : Bytes) → Option Bytes
  eval_ppath strcp pattern =
      if ltb (path_max + 1 - 5) (length pattern)
      then memstrcat strcp (some pattern) none
      else elim (os.glob (pattern ++ codes ".jar")) [
        | none ↦ strcp
        | some (paths, last) ↦ add_paths strcp paths last
      ]

  -- `if (gcp) gcp = memstrcat(gcp, ":", NULL); else gcp = memstrcat(NULL, JAVA_CLASSPATH, NULL);`
  pub open_part : Option Bytes → Option Bytes
  open_part none = memstrcat none (some java_classpath) none
  open_part (some gcp) = memstrcat (some gcp) (some (codes ":")) none

  -- The parts before the last go through the loop, the last through the code behind it. `none` is the
  -- early return of what was processed so far.
  pub eval_parts : Option Bytes → List Bytes → Option (Option Bytes)
  eval_parts gcp [] = some gcp
  eval_parts gcp ([] ∷ []) = some gcp
  eval_parts gcp ((c ∷ p) ∷ []) = some (
      if ends_with_star (c ∷ p)
      then eval_ppath (open_part gcp) (c ∷ p)
      else memstrcat (open_part gcp) (some (c ∷ p)) none)
  eval_parts gcp (p ∷ q ∷ ps) =
      if ends_with_star p
      then elim (eval_ppath (open_part gcp) p) [
        | none ↦ none
        | some gcp' ↦ eval_parts (some gcp') (q ∷ ps)
      ]
      else eval_parts (memstrcat (open_part gcp) (some p) none) (q ∷ ps)

  -- `cpy` reads, as a C string, up to the first colon that the loop has overwritten.
  pub or_copy : Bytes → Option (Option Bytes) → Bytes
  or_copy cp none = java_classpath ++ first_part (parts cp)
  or_copy cp (some none) = java_classpath ++ first_part (parts cp)
  or_copy cp (some (some gcp)) = gcp

  unfoldable pub eval_cpath : Bytes → Option Bytes
  unfolding memstrcat parts add_paths eval_ppath open_part eval_parts or_copy ends_with_star
  eval_cpath cp = elim (memstrcat none (some java_classpath) (some cp)) [
    | none ↦ none
    | some cpy ↦ some (or_copy cp (eval_parts none (parts cp)))
  ]
