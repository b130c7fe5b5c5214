-- ===== src/Arguments/Valid.antt =====
-- What holds of the arguments that `parse` accepts.
use boundary_event_sdk.Prelude.{
  ◌≡◌, ◌⊎◌, inl, inr, Bool, true, false, List, ◌++◌, Bytes, is_some, pos, ◌≤ℤ◌, arith,
}
use boundary_event_sdk.Arguments.Classpath.{Os}
use boundary_event_sdk.Arguments.Options.{Opt, classpath, classify}
use boundary_event_sdk.Arguments.Loop.{OnStep, parse_inv}
use boundary_event_sdk.Arguments.{ArgData, apply, defaults, parsed, parse}

pub record IsValid (s : ArgData) : Type 0 where
  pub wait_ok : (s.wait_time ≡ pos 0) ⊎ (pos 10 ≤ℤ s.wait_time)
  pub umask_ok : pos 2 ≤ℤ s.umask_bits
  pub vers_ok : s.vers ≡ true → s.dtch ≡ false
  pub chck_ok : s.chck ≡ true → s.dtch ≡ false
  pub help_ok : s.help_page ≡ true → s.dtch ≡ false

apply-IsValid :
    (os : Os) (o : Opt) (a : Bytes) (rest : List Bytes) (s : ArgData)
    → IsValid s
    → OnStep
        (λ r. IsValid)
        (λ t. IsValid t × (t.help_page ≡ true))
        (λ r. IsValid)
        rest
        (apply os o a rest s)
unfolding apply
apply-IsValid os classpath a rest s h = ground arith
apply-IsValid os _ a rest s h = ground arith

defaults-IsValid : (junk : Bool) → IsValid (defaults junk)
unfolding defaults
defaults-IsValid junk = ground arith

IsValid-args : (t : ArgData) (args : List Bytes) → IsValid t → IsValid (record t { args = args })
IsValid-args t args h = ground arith

-- Whatever `parse` accepts: the waiting time is 0 or at least 10, the umask at least 2; to show the
-- version, to check or to show the help keeps the process attached; and there is a class to run,
-- unless the help or a removal was asked for.
pub parse-IsValid :
    (os : Os) (junk : Bool) (rest : List Bytes) (s : ArgData)
    → parse os junk rest ≡ parsed s
    → IsValid s × ((s.help_page ≡ true) ⊎ ((is_some s.clas ≡ true) ⊎ (s.remove_service ≡ true)))
parse-IsValid os junk rest s h =
    elim (parse_inv os junk rest s h (λ r. IsValid) (λ t. IsValid t × (t.help_page ≡ true))
      (λ r. IsValid) (λ a r t. apply-IsValid os (classify a) a r t) (λ t v. v)
      (defaults-IsValid junk)) [
        | inl (valid, helped) ↦ (valid, inl helped)
        | inr (t, left, same, valid, why) ↦ rw same (IsValid-args t (t.args ++ left) valid, inr why)
      ]
