-- ===== src/Procrun/Cmdline/Load.antt =====
-- `loadConfiguration` and `saveConfiguration` of src/native/windows/apps/prunsrv/prunsrv.c, option by
-- option. What the registry holds for an option and the expansion of variables are parameters.
pub mod Merged
use mathlib.Core.Option
use boundary_event_sdk.Prelude.{
  ℕ, ◌+◌, ◌*◌, leb, true, false, Bool, not, ◌&&◌, ◌||◌, Option, none, some, List, [], ◌∷◌, ◌++◌,
  Bytes, length, take, codes, if◌then◌else◌, ◌>>=◌,
}
use boundary_event_sdk.Procrun.MultiSz.{Block, multi_sz_combine}
use boundary_event_sdk.Procrun.Cmdline.Options.{Opt}

-- What the registry gives for an option: `apxRegistryGetStringW`, `apxRegistryGetNumberW`, and
-- `apxRegistryGetMzStrW` with the number of bytes that it reports.
pub record Registry : Type 0 where
  pub string : Opt → Option Bytes
  pub number : Opt → ℕ
  pub multi : Opt → Option Bytes × ℕ

module _ (registry : Registry) (expand : Bytes → Bytes) where
  open registry use {string, number, multi}

  -- `APXCMDOPT_STE` has the bit of `APXCMDOPT_STR` as well.
  unfoldable pub load_string : Opt → Opt
  load_string o = record o {
    sz_value = if o.is_str || o.is_exp then Option.map expand (string o) else string o;
  }

  unfoldable pub load_missing : Opt → Opt
  unfolding load_string
  load_missing o =
      if o.is_str
      then load_string o
      else if o.is_int
      then record o { dw_value = number o }
      else if o.is_msz
      then record o { sz_value = (multi o).0; dw_value = (multi o).1 }
      else o

  -- A combination that is `NULL` leaves the size that the registry reported.
  unfoldable pub combined : Opt → Option Block → Opt
  combined o none = record o { sz_value = none; dw_value = (multi o).1 }
  combined o (some b) = record o { sz_value = some (b.memory); dw_value = b.size * 2 }

  -- The body of the loop; `none` is a fault.
  unfoldable pub load_option : Opt → Option Opt
  unfolding load_missing combined
  load_option o =
      if not (o.found)
      then some (load_missing o)
      else if o.add && o.is_msz
      then (do joined ← multi_sz_combine ((multi o).0) (o.sz_value); some (combined o joined))
      else some o

  unfoldable pub load_configuration : List Opt → Option (List Opt)
  unfolding load_option
  load_configuration [] = some []
  load_configuration (o ∷ os) =
      let rest = load_configuration os in
      (do loaded ← load_option o; others ← rest; some (loaded ∷ others))

-- A value that `saveConfiguration` writes: under which key, under which name, and what.
pub data Write : Type 0 where
  write_string : (subkey : Option Bytes) (name : Bytes) (value : Option Bytes) → Write
  write_number : (subkey : Option Bytes) (name : Bytes) (value : ℕ) → Write
  write_list : (subkey : Option Bytes) (name : Bytes) (block : Option Bytes) (bytes : ℕ) → Write

-- The body of the loop of `saveConfiguration`
unfoldable pub save_option : Opt → List Write
save_option o =
    if o.is_srv || not (o.found)
    then []
    else if o.is_str
    then write_string (o.subkey) (o.registry) (o.sz_value) ∷ []
    else if o.is_int
    then write_number (o.subkey) (o.registry) (o.dw_value) ∷ []
    else if o.is_msz
    then write_list (o.subkey) (o.registry) (o.sz_value) (o.dw_value) ∷ []
    else []

unfoldable pub save_configuration : List Opt → List Write
unfolding save_option
save_configuration [] = []
save_configuration (o ∷ os) = save_option o ++ save_configuration os
