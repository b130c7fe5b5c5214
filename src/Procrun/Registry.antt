-- ===== src/Procrun/Registry.antt =====
-- The registry functions of src/native/windows/src/registry.c: the keys that a registry handle keeps open.
-- What the system answers to the calls that open a key is a list, `none` for a call that fails.
pub mod Deletion
pub mod Access
pub mod Level
pub mod Java
pub mod Written
pub mod Tests
use boundary_event_sdk.Prelude.{
  ℕ, Bool, true, false, not, ◌||◌, ◌&&◌, Option, none, some, List, [], ◌∷◌, ◌++◌, Bytes, codes,
  drop, length, ltb, if◌then◌else◌,
}

-- The answers to come, the calls (whether they create the key, and its name), and the keys that were opened
-- and closed so far, the last ones first.
pub record System : Type 0 where
  pub answers : List (Option ℕ)
  pub asked : List (Bool × Bytes)
  pub opened : List ℕ
  pub closed : List ℕ

abbrev pub next_answer : List (Option ℕ) → Option ℕ
next_answer [] = none
next_answer (k ∷ more) = k

abbrev pub add_key : Option ℕ → List ℕ → List ℕ
add_key none ks = ks
add_key (some k) ks = k ∷ ks

-- `RegCreateKeyExW` and `RegOpenKeyExW`
unfoldable pub open_key : (create : Bool) (name : Bytes) → System → Option ℕ × System
open_key create name s =
    let k = next_answer (s.answers) in
    (
      k,
      record s {
        answers = drop 1 s.answers;
        asked = (create, name) ∷ s.asked;
        opened = add_key k s.opened;
      },
    )

-- `SAFE_CLOSE_KEY`, but for the variable
unfoldable pub close_key : Option ℕ → System → System
close_key none s = s
close_key (some k) s = record s { closed = k ∷ s.closed }

-- `APXREGISTRY`
pub record Registry : Type 0 where
  pub can_create : Bool
  pub root_key : Option ℕ
  pub serv_key : Option ℕ
  pub user_key : Option ℕ
  pub curr_key : Option ℕ
  pub rparam_key : Option ℕ
  pub sparam_key : Option ℕ
  pub uparam_key : Option ℕ

-- The keys in the order of the callback for `WM_CLOSE`
unfoldable pub keys_of : Registry → List (Option ℕ)
keys_of r =
    r.curr_key ∷ r.rparam_key ∷ r.sparam_key ∷ r.uparam_key ∷ r.root_key ∷ r.serv_key ∷ r.user_key
    ∷ []

unfoldable pub close_keys : List (Option ℕ) → System → System
unfolding close_key
close_keys [] s = s
close_keys (k ∷ ks) s = close_keys ks (close_key k s)

abbrev pub no_keys : Bool → Registry
no_keys can_create = record {
  can_create = can_create;
  root_key = none;
  serv_key = none;
  user_key = none;
  curr_key = none;
  rparam_key = none;
  sparam_key = none;
  uparam_key = none;
}

-- `__apxRegistryCallback` with `WM_CLOSE`
unfoldable pub close_registry : Registry → System → Registry × System
unfolding keys_of close_keys
close_registry r s = (no_keys (r.can_create), close_keys (keys_of r) s)

abbrev is_open : Option ℕ → Bool
is_open none = false
is_open (some k) = true

-- The Parameters of a key that was opened, and whether both are open
unfoldable pub open_params :
    (create : Bool) → Option ℕ → System → (Option ℕ × Option ℕ) × Bool × System
unfolding open_key
open_params create none s = ((none, none), false, s)
open_params create (some k) s =
    let (p, s') = open_key create (codes "Parameters") s in ((some k, p), is_open p, s')

unfoldable pub open_pair :
    (create create_params : Bool) (name : Bytes) → System → (Option ℕ × Option ℕ) × Bool × System
unfolding open_key open_params
open_pair create create_params name s =
    let (k, s') = open_key create name s in open_params create_params k s'

-- What `apxCreateRegistryW` has opened so far, and whether it goes on
abbrev pub Progress : Type 0
Progress = Bool × Registry × System

unfoldable pub open_software : (wanted : Bool) (name : Bytes) → Progress → Progress
unfolding open_pair
open_software wanted name (going, r, s) =
    let ((k, p), ok, s') = open_pair (r.can_create) (r.can_create) name s in
    if going && wanted then (ok, record r { root_key = k; rparam_key = p }, s') else (going, r, s)

unfoldable pub open_user : (wanted : Bool) (name : Bytes) → Progress → Progress
unfolding open_pair
open_user wanted name (going, r, s) =
    let ((k, p), ok, s') = open_pair (r.can_create) (r.can_create) name s in
    if going && wanted then (ok, record r { user_key = k; uparam_key = p }, s') else (going, r, s)

unfoldable pub open_service : (wanted : Bool) (name : Bytes) → Progress → Progress
unfolding open_pair
open_service wanted name (going, r, s) =
    let ((k, p), ok, s') = open_pair false (r.can_create) name s in
    if going && wanted then (ok, record r { serv_key = k; sparam_key = p }, s') else (going, r, s)

-- `dwOptions`
pub record Options : Type 0 where
  pub software : Bool
  pub user : Bool
  pub service : Bool

abbrev pub resource_max : ℕ
resource_max = 255

abbrev pub root_name : Option Bytes → Bytes
root_name none = codes "Apache Software Foundation"
root_name (some root) = root

-- The keys that `apxCreateRegistryW` opens before it makes the handle
unfoldable pub open_all : (can_create : Bool) (o : Options) (root key : Bytes) → System → Progress
unfolding open_software open_user open_service
open_all can_create o root key s =
    let buff = codes "SOFTWARE\\" ++ (root ++ (codes "\\" ++ key)) in
    open_service (o.service) (codes "SYSTEM\\CurrentControlSet\\Services\\" ++ key)
      (open_user (o.user) buff (open_software (o.software) buff (true, no_keys can_create, s)))

-- `apxCreateRegistryW`; `handle_made` is the answer of `apxHandleCreate`.
unfoldable pub create_registry :
    (can_create : Bool) (root key : Option Bytes) (o : Options) (handle_made : Bool)
    → System
    → Option Registry × System
unfolding open_all keys_of close_keys
create_registry can_create root none o handle_made s = (none, s)
create_registry can_create root (some key) o handle_made s =
    let (ok, r, s') = open_all can_create o (root_name root) key s in
    if ltb resource_max (length key) || ltb resource_max (length (root_name root))
    then (none, s)
    else if not ok
    then (none, close_keys (keys_of r) s')
    else if handle_made
    then (some r, s')
    else (none, s')
