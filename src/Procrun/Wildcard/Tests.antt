-- ===== src/Procrun/Wildcard/Tests.antt =====
-- Patterns on small inputs.
use mathlib.Core.Option
use boundary_event_sdk.Prelude.{
  true, ◌+◌, ◌&&◌, leb, if◌then◌else◌, ℕ, ◌≡◌, refl, false, none, some, [], ◌∷◌, ◌++◌, Bytes, codes,
  arith,
}
use boundary_event_sdk.Procrun.Wildcard.{
  matched, unmatched, fold, ends, tries, compare_unit, loop_body, match_from, str_match, set_unit,
  last_part, match_parts, multi_str_match,
}
use boundary_event_sdk.Procrun.Wildcard.Suffixes.{wild}
use boundary_event_sdk.Procrun.Wildcard.Plain.{IsApart, str_match-wild, is_match}

abbrev same : ℕ → ℕ
same c = c

abbrev jar_name : Bytes
jar_name = codes "tomcat.jar"

abbrev jar_pattern : Bytes
jar_pattern = codes "t*t*jar"

jar_matches : str_match same (jar_name ++ (0 ∷ [])) (jar_pattern ++ (0 ∷ [])) false ≡ some matched
unfolding str_match match_from loop_body compare_unit tries ends
jar_matches = refl

-- A `?` at the end of the string takes the NUL, and what stands behind the string decides.
question_reads_on :
    str_match same (codes "a" ++ (0 ∷ 0 ∷ [])) (codes "a?" ++ (0 ∷ [])) false ≡ some matched
unfolding str_match match_from loop_body compare_unit tries ends
question_reads_on = refl

question_faults : str_match same (codes "a" ++ (0 ∷ [])) (codes "a?" ++ (0 ∷ [])) false ≡ none
unfolding str_match match_from loop_body compare_unit tries ends
question_faults = refl

-- A part of a list is not ended before it is compared, so what the buffer held belongs to it.
first_part_unended :
    multi_str_match same
      (codes "zzzzzzzz" ++ (0 ∷ []))
      (codes "ab" ++ (0 ∷ []))
      (codes "ab;c" ++ (0 ∷ []))
      b';'
      false
    ≡ some unmatched
unfolding multi_str_match match_parts last_part set_unit str_match match_from loop_body compare_unit
    tries ends
first_part_unended = refl

abbrev lower_case : ℕ → ℕ
lower_case c = if leb b'A' c && leb c b'Z' then c + 32 else c

lower_case-IsApart : IsApart lower_case
lower_case-IsApart c nz e = ground (arith, nz, e)

str_match-wild_example :
    Option.map is_match
      (str_match lower_case (jar_name ++ (0 ∷ [])) (codes "T*t*JAR" ++ (0 ∷ [])) true)
    ≡ some (wild (fold lower_case true) (codes "T*t*JAR") jar_name)
str_match-wild_example =
    str_match-wild lower_case jar_name (codes "T*t*JAR") [] [] true lower_case-IsApart (omega arith)
      (omega arith) (omega arith)
