-- ===== src/Procrun/Wildcard.antt =====
-- The matching of names against patterns of src/native/windows/src/utils.c. A string is the memory from a
-- pointer on, and memory that ends before what the code reads is a fault, `none`. `CharLowerW` is the
-- parameter `lower`.
pub mod Suffixes
pub mod Plain
pub mod Tests
use boundary_event_sdk.Prelude.{
  ℕ, zero, suc, ◌+◌, Bool, true, false, Option, none, some, List, [], ◌∷◌, Bytes, drop, ◌==◌, ltb,
  if◌then◌else◌,
}

abbrev pub asterisk : ℕ
asterisk = b'*'

abbrev pub question : ℕ
question = b'?'

-- `0`, `1` and `-1`
pub data Verdict : Type 0 where
  matched : Verdict
  unmatched : Verdict
  aborted : Verdict

abbrev pub fold : (ℕ → ℕ) → (ignore_case : Bool) → ℕ → ℕ
fold lower ignore_case c = if ignore_case then lower c else c

-- `return (szString[x] != '\0')`
unfoldable pub ends : Bytes → Option Verdict
ends [] = none
ends (c ∷ s) = some (if c == 0 then matched else unmatched)

-- The loop behind an asterisk, where `f` is the call for a suffix of the string
unfoldable pub tries : (Bytes → Option Verdict) → Bytes → Option Verdict
tries f [] = none
tries f (c ∷ s) =
    let rest = tries f s in
    if c == 0
    then some aborted
    else elim (f (c ∷ s)) [ none ↦ none | some unmatched ↦ rest | some v ↦ some v ]

-- The comparison of one unit, which ignores what `?` stands for
unfoldable pub compare_unit :
    (f : ℕ → ℕ) (c : ℕ) (next : Bytes → Option Verdict) → Bytes → Option Verdict
compare_unit f c next s =
    if c == question
    then next (drop 1 s)
    else elim s [ [] ↦ none | d ∷ s' ↦ if f d == f c then next s' else some unmatched ]

-- One turn of the loop on the unit `c` of the pattern: `at_x` is the pattern from `x` on, `star` goes on
-- behind an asterisk, and `next` with the rest of both. The second half of the test of `szPattern[x]`
-- holds of every unit.
unfoldable pub loop_body :
    (f : ℕ → ℕ) (c : ℕ) (at_x : Bytes) (star : Bytes → Option Verdict)
    (next : Bytes → Bytes → Option Verdict)
    → Bytes
    → Option Verdict
unfolding ends compare_unit
loop_body f c [] star next s = if c == 0 then ends s else none
loop_body f c (b ∷ at_x) star next s =
    if c == 0
    then ends s
    else if b == 0
    then some aborted
    else if c == asterisk
    then star s
    else compare_unit f c (next at_x) s

-- The matching from a place in the pattern on, at the head of the loop or behind an asterisk
unfoldable pub match_from :
    (f : ℕ → ℕ) (starred : Bool) (pattern at_x : Bytes) → Bytes → Option Verdict
unfolding loop_body tries
match_from f starred [] at_x s = none
match_from f false (c ∷ p) at_x s =
    loop_body f c at_x (λ t. match_from f true p [] t) (λ q t. match_from f false p q t) s
match_from f true (c ∷ p) at_x s =
    if c == asterisk
    then match_from f true p at_x s
    else if c == 0
    then some matched
    else tries
        (loop_body f c (c ∷ p) (λ t. match_from f true p [] t) (λ q t. match_from f false p q t)) s

-- `apxStrMatchW`
unfoldable pub str_match : (ℕ → ℕ) → (s pattern : Bytes) (ignore_case : Bool) → Option Verdict
unfolding match_from
str_match lower s pattern ignore_case = match_from (fold lower ignore_case) false pattern pattern s

abbrev pub huge_max : ℕ
huge_max = 8191

-- `szM[i] = c`
unfoldable pub set_unit : (i c : ℕ) → Bytes → Bytes
set_unit i c [] = []
set_unit zero c (d ∷ m) = c ∷ m
set_unit (suc i) c (d ∷ m) = d ∷ set_unit i c m

-- `szM` once the pattern is read
unfoldable pub last_part :
    (match_part : Bytes → Option Verdict) (i : ℕ) (m : Bytes) (v : Verdict) → Option Verdict
unfolding set_unit
last_part match_part i m v = elim (set_unit i 0 m) [
  | [] ↦ none
  | c ∷ part ↦ if c == 0 then some v else match_part (c ∷ part)
]

-- The loop of `apxMultiStrMatchW`, with the buffer `m` and the verdict `v` so far
unfoldable pub match_parts :
    (match_part : Bytes → Option Verdict) (separator : ℕ) (i : ℕ) (m : Bytes) (v : Verdict)
    → Bytes
    → Option Verdict
unfolding last_part set_unit
match_parts match_part separator i m v [] = none
match_parts match_part separator i m v (c ∷ p) =
    let after = λ (w : Verdict). match_parts match_part separator 0 (set_unit 0 0 m) w p in
    let stored = match_parts match_part separator (suc i) (set_unit i c m) v p in
    if c == 0
    then last_part match_part i m v
    else if c == separator
    then elim (match_part m) [ none ↦ none | some matched ↦ some matched | some w ↦ after w ]
    else if ltb i huge_max
    then stored
    else some aborted

-- `apxMultiStrMatchW`; `buffer` is what `szM` holds at first
unfoldable pub multi_str_match :
    (lower : ℕ → ℕ) (buffer s pattern : Bytes) (separator : ℕ) (ignore_case : Bool) → Option Verdict
unfolding match_parts str_match
multi_str_match lower buffer s pattern separator ignore_case =
    if separator == 0
    then str_match lower s pattern ignore_case
    else match_parts (λ part. str_match lower s part ignore_case) separator 0 buffer aborted pattern
