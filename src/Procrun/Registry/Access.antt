-- ===== src/Procrun/Registry/Access.antt =====
-- The functions that read, write and delete values: apxRegistryGetStringW and the others of its kind. The
-- values that the system keeps are a parameter.
pub mod Sessions
use mathlib.Core.Option
use boundary_event_sdk.Prelude.{
  ℕ, ◌+◌, ◌*◌, ◌/◌, ◌%◌, ◌^◌, ◌≡◌, Bool, true, false, Option, none, some, List, [], ◌∷◌, ◌++◌, take,
  Bytes, length, ◌==◌, if◌then◌else◌,
}
use boundary_event_sdk.Procrun.Registry.{Registry, System, open_key, close_key}

-- A value with its type, as the bytes that it consists of, or the number
pub data Value : Type 0 where
  sz : Bytes → Value
  binary : Bytes → Value
  multi_sz : Bytes → Value
  dword : ℕ → Value

-- `RegQueryValueExW`, `RegSetValueExW` and `RegDeleteValueW` on an open key, the key of the registry
-- that a handle stands for, and whether it is open for `KEY_QUERY_VALUE`
pub record Values : Type 1 where
  pub World : Type 0
  pub key_of : ℕ → World → Bytes
  pub may_query : ℕ → World → Bool
  pub query : ℕ → Bytes → World → Option Value
  pub set : ℕ → Bytes → Value → World → Bool × World
  pub delete : ℕ → Bytes → World → Bool × World

-- `dwFrom`
pub data From : Type 0 where
  software : From
  param_software : From
  service : From
  param_service : From
  user : From
  param_user : From
  other : From

-- `REG_GET_KEY`
unfoldable pub get_key : From → Registry → Option ℕ
get_key software r = r.root_key
get_key param_software r = r.rparam_key
get_key service r = r.serv_key
get_key param_service r = r.sparam_key
get_key user r = r.user_key
get_key param_user r = r.uparam_key
get_key other r = none

-- The key of a call: the one that was asked for, or a subkey of it, which takes the place of the current one
unfoldable pub use_subkey :
    (create : Bool)
    → Option ℕ
    → (subkey : Option Bytes) → Registry
    → System
    → Option ℕ × Registry × System
unfolding open_key close_key
use_subkey create none subkey r s = (none, r, s)
use_subkey create (some k) none r s = (some k, r, s)
use_subkey create (some k) (some name) r s =
    let (h, s') = open_key create name (close_key (r.curr_key) s) in
    (h, record r { curr_key = h }, s')

unfoldable pub bytes_of_dword : ℕ → Bytes
bytes_of_dword n = (n % 256) ∷ ((n / 256) % 256) ∷ ((n / 65536) % 256) ∷ ((n / 16777216) % 256) ∷ []

-- Units in memory, two bytes each, and the units of a block of bytes
unfoldable pub bytes_of_units : Bytes → Bytes
bytes_of_units [] = []
bytes_of_units (c ∷ s) = (c % 256) ∷ ((c / 256) % 256) ∷ bytes_of_units s

unfoldable pub units_of_bytes : Bytes → Bytes
units_of_bytes [] = []
units_of_bytes (a ∷ []) = []
units_of_bytes (a ∷ b ∷ s) = (a + 256 * b) ∷ units_of_bytes s

-- What `__apxGetRegistrySzW`, `__apxGetRegistryBinaryW` and `apxRegistryGetNumberW` make of a value; a
-- string is the block that it returns, as far as the value fills it, with the NUL that the value has or has not.
unfoldable pub string_of : Option Value → Option Bytes
unfolding units_of_bytes
string_of none = none
string_of (some (sz b)) = some (units_of_bytes b)
string_of (some _) = none

abbrev pub raw : Value → Bytes
raw (sz b) = b
raw (binary b) = b
raw (multi_sz m) = m
raw (dword n) = bytes_of_dword n

unfoldable pub binary_of : Option Value → Option Bytes
unfolding bytes_of_dword
binary_of none = none
binary_of (some v) = if length (raw v) == 0 then none else some (raw v)

unfoldable pub number_of : Option Value → ℕ
number_of none = 0
number_of (some (dword n)) = n
number_of (some _) = 0

-- The bytes that `RegSetValueExW` takes from a string and its NUL in memory
unfoldable pub string_bytes : Bytes → Bytes
unfolding bytes_of_units
string_bytes t = take ((length t + 1) * 2) (bytes_of_units (t ++ (0 ∷ [])))

module _ (v : Values) where
  -- The registry handle, the keys of the process, and the values
  abbrev pub State : Type 0
  State = Registry × System × v.World

  abbrev pub find_value : Option ℕ → Bytes → v.World → Option Value
  find_value none name w = none
  find_value (some k) name w = v.query k name w

  unfoldable pub get_value :
      (f : From) (subkey : Option Bytes) (name : Bytes) → State → Option Value × State
  unfolding get_key use_subkey
  get_value f subkey name (r, s, w) =
      let (k, r', s') = use_subkey false (get_key f r) subkey r s in
      (find_value k name w, (r', s', w))

  unfoldable pub get_string :
      (f : From) (subkey : Option Bytes) (name : Bytes) → State → Option Bytes × State
  unfolding get_value string_of
  get_string f subkey name st = let (o, st') = get_value f subkey name st in (string_of o, st')

  -- With no buffer given
  unfoldable pub get_binary :
      (f : From) (subkey : Option Bytes) (name : Bytes) → State → Option Bytes × State
  unfolding get_value binary_of
  get_binary f subkey name st = let (o, st') = get_value f subkey name st in (binary_of o, st')

  unfoldable pub get_number : (f : From) (subkey : Option Bytes) (name : Bytes) → State → ℕ × State
  unfolding get_value number_of
  get_number f subkey name st = let (o, st') = get_value f subkey name st in (number_of o, st')

  -- With no buffer given; the length is the one reported through `lpdwLength`.
  unfoldable pub get_mz_str :
      (f : From) (subkey : Option Bytes) (name : Bytes) → State → Option (Bytes × ℕ) × State
  unfolding get_value binary_of
  get_mz_str f subkey name st =
      let (o, st') = get_value f subkey name st in
      (Option.map (λ (b : Bytes). (b, length b * 2)) (binary_of o), st')

  abbrev pub change_value : (ℕ → v.World → Bool × v.World) → Option ℕ → v.World → Bool × v.World
  change_value act none w = (false, w)
  change_value act (some k) w = act k w

  unfoldable pub change :
      (create : Bool) (f : From) (subkey : Option Bytes) (act : ℕ → v.World → Bool × v.World)
      → State
      → Bool × State
  unfolding get_key use_subkey
  change create f subkey act (r, s, w) =
      let (k, r', s') = use_subkey create (get_key f r) subkey r s in
      let (ok, w') = change_value act k w in (ok, (r', s', w'))

  unfoldable pub set_binary :
      (f : From) (subkey : Option Bytes) (name data_bytes : Bytes) → State → Bool × State
  unfolding change
  set_binary f subkey name data_bytes =
      change true f subkey (λ k w. v.set k name (binary data_bytes) w)

  unfoldable pub set_mz_str :
      (f : From) (subkey : Option Bytes) (name data_bytes : Bytes) → State → Bool × State
  unfolding change
  set_mz_str f subkey name data_bytes =
      change true f subkey (λ k w. v.set k name (multi_sz data_bytes) w)

  unfoldable pub set_num :
      (f : From) (subkey : Option Bytes) (name : Bytes) (n : ℕ) → State → Bool × State
  unfolding change
  set_num f subkey name n = change true f subkey (λ k w. v.set k name (dword n) w)

  -- An empty string, or `NULL`, deletes the value.
  unfoldable pub string_change : Bytes → Option Bytes → ℕ → v.World → Bool × v.World
  unfolding string_bytes
  string_change name none k w = v.delete k name w
  string_change name (some []) k w = v.delete k name w
  string_change name (some (c ∷ t)) k w = v.set k name (sz (string_bytes (c ∷ t))) w

  unfoldable pub set_str :
      (f : From) (subkey : Option Bytes) (name : Bytes) (value : Option Bytes)
      → State
      → Bool × State
  unfolding change string_change
  set_str f subkey name value = change true f subkey (string_change name value)

  unfoldable pub delete_value :
      (f : From) (subkey : Option Bytes) (name : Bytes) → State → Bool × State
  unfolding change
  delete_value f subkey name = change false f subkey (λ k w. v.delete k name w)
