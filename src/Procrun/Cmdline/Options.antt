-- ===== src/Procrun/Cmdline/Options.antt =====
-- The option loop of `apxCmdlineParse`, and `apxAtoulW` of src/native/windows/src/utils.c.
use boundary_event_sdk.Prelude.{
  ℕ, ◌+◌, ◌-◌, ◌*◌, ◌/◌, ◌%◌, ◌^◌, ltb, leb, Bool, true, false, not, ◌&&◌, ◌||◌, Option, none, some,
  List, [], ◌∷◌, ◌++◌, Bytes, length, take, drop, codes, ◌==◌, if◌then◌else◌, str_eq, starts_with,
}
use boundary_event_sdk.Procrun.MultiSz.{zeros, contents}

-- `APXCMDLINEOPT` with the bits of `dwType`; `APXCMDOPT_STE` is `is_str` and `is_exp`. The `szValue` of
-- a list of strings is its whole block, and `dwValue` then the block's size in bytes.
pub record Opt : Type 0 where
  pub name : Bytes
  pub registry : Bytes
  pub subkey : Option Bytes
  pub is_int : Bool
  pub is_str : Bool
  pub is_exp : Bool
  pub is_msz : Bool
  pub is_reg : Bool
  pub is_srv : Bool
  pub found : Bool
  pub add : Bool
  pub sz_value : Option Bytes
  pub dw_value : ℕ

-- `rejected` is `NULL` with a message; `fault` is a read behind the end of a string.
pub data Outcome {ℓ} (A : Type ℓ) : Type ℓ where
  ok : A → Outcome A
  rejected fault : Outcome A

infixl 5 ◌>>=◌
abbrev pub ◌>>=◌ {ℓ κ} : {A : Type ℓ} {B : Type κ} → Outcome A → (A → Outcome B) → Outcome B
ok a >>= k = k a
rejected >>= k = rejected
fault >>= k = fault

abbrev pub dword : ℕ
dword = 2 ^ 32

abbrev is_digit : ℕ → Bool
is_digit c = leb b'0' c && leb c b'9'

-- The digits from the last one back, up to the first unit that is none; `sh` is their weight.
unfoldable pub digits_back : (reversed : Bytes) (rv sh : ℕ) → ℕ
digits_back [] rv sh = rv
digits_back (c ∷ s) rv sh =
    let rest = digits_back s ((rv + (c - b'0') * sh) % dword) (sh * 10 % dword) in
    if is_digit c then rest else rv

unfoldable pub backward : Bytes → Bytes → Bytes
backward [] r = r
backward (c ∷ s) r = backward s (c ∷ r)

-- `apxAtoulW`; behind a `-` alone it looks for the last digit past the end of the string.
unfoldable pub atoul : Bytes → Outcome ℕ
unfolding digits_back backward
atoul [] = ok 0
atoul (c ∷ s) =
    if c == b'-'
    then elim s [
      | [] ↦ fault
      | d ∷ t ↦ ok ((dword - digits_back (backward (d ∷ t) (b'-' ∷ [])) 0 1) % dword)
    ]
    else ok (digits_back (backward (c ∷ s) []) 0 1)

-- The units that the quote loop stores for a value: single quotes are dropped, `#` and `;` outside of
-- quotes end a string.
unfoldable pub quoted : (in_single in_double : Bool) → Bytes → Bytes
quoted in_single in_double [] = []
quoted in_single in_double (c ∷ s) =
    let single = quoted (not in_single) in_double s in
    let double = quoted in_single (not in_double) s in
    let rest = quoted in_single in_double s in
    if c == b'\''
    then single
    else if c == b'"'
    then b'"' ∷ double
    else if (c == b'#' || c == b';') && not in_single && not in_double
    then 0 ∷ rest
    else c ∷ rest

-- The units of the block so far that a further value is put behind.
unfoldable pub kept_units : Opt → ℕ
kept_units o = if ltb 2 (o.dw_value) then (o.dw_value - 2) / 2 else 0

-- A zeroed block with the kept units of the old one and then the value.
unfoldable pub set_list : Bytes → Opt → Opt
unfolding quoted kept_units contents
set_list val o =
    let sp = kept_units o in
    let written = quoted false false val in
    record o {
      sz_value =
          some (
            take sp (contents (o.sz_value))
            ++ (written ++ zeros (length val + 2 - length written)));
      dw_value = (sp + length val + 2) * 2;
    }

-- The bits for `++name` and `--name`: a `--` drops what an earlier `++` collected.
unfoldable pub mark : (plus : Bool) → Opt → Opt
mark true o = if o.found then o else record o { add = true }
mark false o = if o.add then record o { add = false; dw_value = 0; sz_value = none } else o

unfoldable pub store_value : Bytes → Opt → Outcome Opt
unfolding set_list atoul
store_value val o =
    if o.is_str
    then ok (record o { sz_value = some val })
    else if o.is_int
    then (do n ← atoul val; ok (record o { dw_value = n }))
    else if o.is_msz
    then ok (set_list val o)
    else ok o

unfoldable pub set_option : (plus : Bool) → Bytes → Opt → Outcome Opt
unfolding store_value mark
set_option plus val o = do
  stored ← store_value val (mark plus o)
  ok (record stored { found = true })

-- The first option of that name gets the value.
unfoldable pub assign : (name : Bytes) (plus : Bool) → Bytes → List Opt → Outcome (List Opt)
unfolding set_option
assign name plus val [] = rejected
assign name plus val (o ∷ os) =
    let later = assign name plus val os in
    if str_eq (o.name) name
    then (do set ← set_option plus val o; ok (set ∷ os))
    else (do rest ← later; ok (o ∷ rest))

-- The text before the first `=`, and what is behind it
unfoldable pub inline_value : Bytes → Bytes × Option Bytes
inline_value [] = ([], none)
inline_value (c ∷ s) =
    let (name, value) = inline_value s in if c == b'=' then ([], some s) else (c ∷ name, value)

abbrev pub is_plus : Bytes → Bool
is_plus a = starts_with (codes "++") a

abbrev pub is_option : Bytes → Bool
is_option a = is_plus a || starts_with (codes "--") a

-- The loop over the arguments: the options as they are left, and the arguments behind them. An option
-- whose value is missing is rejected like one that is not known.
unfoldable pub parse_options : List Opt → List Bytes → Outcome (List Opt × List Bytes)
unfolding assign inline_value
parse_options opts [] = ok (opts, [])
parse_options opts (a ∷ []) = elim (is_option a) [
  | false ↦ ok (opts, a ∷ [])
  | true ↦
      let (name, inline) = inline_value (drop 2 a) in
      elim inline [
        | some e ↦ assign name (is_plus a) e opts >>= λ set. ok (set, [])
        | none ↦ rejected
      ]
]
parse_options opts (a ∷ val ∷ more) = elim (is_option a) [
  | false ↦ ok (opts, a ∷ val ∷ more)
  | true ↦
      let (name, inline) = inline_value (drop 2 a) in
      elim inline [
        | some e ↦ assign name (is_plus a) e opts >>= λ set. parse_options set (val ∷ more)
        | none ↦ assign name (is_plus a) val opts >>= λ set. parse_options set more
      ]
]
