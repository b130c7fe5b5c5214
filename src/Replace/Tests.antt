-- ===== src/Replace/Tests.antt =====
-- Runs of `replace` on small inputs, and its theorems at such inputs.
use boundary_event_sdk.Prelude.{
  ◌≡◌, refl, [], Bytes, codes, pos, some, false, arith, starts_with, ◌+ℤ◌, ◌-ℤ◌, ◌*ℤ◌,
}
use boundary_event_sdk.Text.{strstr}
use boundary_event_sdk.Replace.Memory.{Mem, Holds, c_string, strcpy}
use boundary_event_sdk.Replace.Substitution.{substitute, occurrences}
use boundary_event_sdk.Replace.{replace}
use boundary_event_sdk.Replace.Contract.{replace_fits, replace_overruns}

abbrev blank : Mem
blank = λ i. 7

abbrev template : Bytes
template = codes "$H/lib/$H"

abbrev home : Bytes
home = codes "/usr/java"

expanded :
    c_string 100 (replace false blank (pos 64) (some template) (some (codes "$H")) (some home)).1 0
    ≡ codes "/usr/java/lib//usr/java"
unfolding replace strcpy c_string strstr starts_with ◌+ℤ◌ ◌-ℤ◌ ◌*ℤ◌
expanded = refl

shortened :
    c_string 100 (replace false blank (pos 64) (some template) (some (codes "$H")) (some [])).1 0
    ≡ codes "/lib/"
unfolding replace strcpy c_string strstr starts_with ◌+ℤ◌ ◌-ℤ◌ ◌*ℤ◌
shortened = refl

refused : (replace false blank (pos 5) (some template) (some (codes "$H")) (some home)).0 ≡ pos 24
unfolding replace strcpy c_string strstr starts_with ◌+ℤ◌ ◌-ℤ◌ ◌*ℤ◌
refused = refl

replace_fits_example :
    ((replace false blank (pos 64) (some template) (some (codes "$H")) (some home)).0 ≡ pos 0)
    × Holds
        (replace false blank (pos 64) (some template) (some (codes "$H")) (some home)).1
        0
        (substitute (codes "$H") home 0 template)
    × ((replace false blank (pos 64) (some template) (some (codes "$H")) (some home)).1 70 ≡ 7)
unfolding substitute starts_with
replace_fits_example =
    replace_fits blank 64 template b'$' (codes "H") home (omega arith) (omega arith) (omega arith)
      (omega arith) 70 (omega arith)

-- "aaaa" does not fit a buffer of 3 bytes, and "" does.
replace_overruns_example :
    ((replace false blank (pos 3) (some (codes "aaaa")) (some (codes "aa")) (some [])).0 ≡ pos 0)
    × ((replace false blank (pos 3) (some (codes "aaaa")) (some (codes "aa")) (some [])).1 4 ≡ 0)
unfolding substitute occurrences starts_with
replace_overruns_example =
    replace_overruns blank 3 (codes "aaaa") b'a' (codes "a") [] (omega arith) tt (omega arith)
      (omega arith) (omega arith)
