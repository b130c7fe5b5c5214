-- ===== src/Procrun/Cmdline/Environment.antt =====
-- `apxCmdlineLoadEnvVars` of src/native/windows/src/cmdline.c. The environment is a parameter.
use boundary_event_sdk.Prelude.{
  ℕ, leb, true, none, some, List, [], ◌∷◌, ◌++◌, Bytes, length, take, codes, if◌then◌else◌,
}
use boundary_event_sdk.Procrun.Cmdline.Options.{Opt, Outcome, ok, ◌>>=◌, atoul, set_list}

-- What `GetEnvironmentVariableW` gives: no such variable, another error or an empty value, or a value.
pub data Variable : Type 0 where
  absent failed : Variable
  present : Bytes → Variable

-- `SIZ_HUGMAX`
abbrev pub huge_max : ℕ
huge_max = 8191

-- The option with the value of its variable; an earlier list is dropped.
unfoldable pub env_option : Bytes → Opt → Outcome Opt
unfolding atoul set_list
env_option val o =
    if o.is_str
    then ok (record o { sz_value = some val; found = true })
    else if o.is_int
    then (do n ← atoul val; ok (record o { dw_value = n; found = true }))
    else if o.is_msz
    then ok (record (set_list val (record o { dw_value = 0; sz_value = none })) {
      found = true;
      add = true;
    })
    else ok o

module _ (getenv : Bytes → Variable) where
  -- `apxCmdlineLoadEnvVars`: an error ends the loop, and a value that is too long is passed over.
  unfoldable pub load_env_vars : List Opt → Outcome (List Opt)
  unfolding env_option
  load_env_vars [] = ok []
  load_env_vars (o ∷ os) =
      let rest = load_env_vars os in
      let kept : Outcome (List Opt) = rest >>= λ others. ok (o ∷ others) in
      elim (getenv (take 63 (codes "PR_" ++ o.name))) [
        | failed ↦ ok (o ∷ os)
        | absent ↦ kept
        | present val ↦
            if leb huge_max (length val)
            then kept
            else env_option val o >>= λ set. rest >>= λ others. ok (set ∷ others)
      ]
