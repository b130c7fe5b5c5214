-- ===== src/Procrun/Registry/Access/Sessions.antt =====
-- A registry handle from its creation to its end.
use boundary_event_sdk.Prelude.{
  ℕ, ◌≡◌, Bool, true, false, Option, none, some, List, [], ◌∷◌, Bytes, arith,
}
use boundary_event_sdk.Procrun.Registry.{
  Registry, System, Options, create_registry, close_registry, keys_of,
}
use boundary_event_sdk.Procrun.Registry.Access.{
  Values, From, State, get_key, use_subkey, get_value, get_string, get_binary, get_number,
  get_mz_str, change, set_binary, set_mz_str, set_num, set_str, delete_value,
}
use boundary_event_sdk.Procrun.Registry.Level.{
  times, held, Accounted, keys_of_handle, create_registry-Accounted, open_key-Accounted,
  close_key-Accounted, close_keys-Accounted,
}

-- The functions on a registry handle, with what they are given beside the key and the name
pub data Op : Type 0 where
  string_got : Op
  binary_got : Op
  number_got : Op
  mz_str_got : Op
  binary_set : Bytes → Op
  mz_str_set : Bytes → Op
  num_set : ℕ → Op
  str_set : Option Bytes → Op
  value_deleted : Op

pub record Access : Type 0 where
  pub op : Op
  pub from : From
  pub subkey : Option Bytes
  pub name : Bytes

use_subkey-Accounted :
    (before h : ℕ) (create : Bool) (k : Option ℕ) (subkey : Option Bytes) (r : Registry)
    (s : System)
    → Accounted before h (keys_of r) s
    → Accounted before h
        (keys_of ((use_subkey create k subkey r s).1))
        ((use_subkey create k subkey r s).2)
unfolding use_subkey keys_of
use_subkey-Accounted before h create none subkey r s a = a
use_subkey-Accounted before h create (some k) none r s a = a
use_subkey-Accounted before h create (some k) (some name) r s a =
    open_key-Accounted before h create name _ _ (close_key-Accounted before h (r.curr_key) _ s a)

module _ (v : Values) where
  unfoldable pub perform :
      Op → (f : From) (subkey : Option Bytes) (name : Bytes) → State v → State v
  unfolding get_string get_binary get_number get_mz_str set_binary set_mz_str set_num set_str
      delete_value
  perform string_got f subkey name st = (get_string v f subkey name st).1
  perform binary_got f subkey name st = (get_binary v f subkey name st).1
  perform number_got f subkey name st = (get_number v f subkey name st).1
  perform mz_str_got f subkey name st = (get_mz_str v f subkey name st).1
  perform (binary_set b) f subkey name st = (set_binary v f subkey name b st).1
  perform (mz_str_set b) f subkey name st = (set_mz_str v f subkey name b st).1
  perform (num_set n) f subkey name st = (set_num v f subkey name n st).1
  perform (str_set t) f subkey name st = (set_str v f subkey name t st).1
  perform value_deleted f subkey name st = (delete_value v f subkey name st).1

  unfoldable pub perform_all : List Access → State v → State v
  unfolding perform
  perform_all [] st = st
  perform_all (a ∷ more) st = perform_all more (perform (a.op) (a.from) (a.subkey) (a.name) st)

  abbrev IsLevel : (before h : ℕ) → State v → Type 0
  IsLevel before h (r, s, w) = Accounted before h (keys_of r) s

  perform-IsLevel :
      (before h : ℕ) (op : Op) (f : From) (subkey : Option Bytes) (name : Bytes) (st : State v)
      → IsLevel before h st
      → IsLevel before h (perform op f subkey name st)
  unfolding perform get_value get_string get_binary get_number get_mz_str change set_binary
      set_mz_str set_num set_str delete_value
  perform-IsLevel before h op f subkey name (r, s, w) a =
      let visits =
        λ (create : Bool). use_subkey-Accounted before h create (get_key f r) subkey r s a in
      elim op as (λ o. IsLevel before h (perform o f subkey name (r, s, w))) [
        | string_got ↦ visits false
        | binary_got ↦ visits false
        | number_got ↦ visits false
        | mz_str_got ↦ visits false
        | binary_set b ↦ visits true
        | mz_str_set b ↦ visits true
        | num_set n ↦ visits true
        | str_set t ↦ visits true
        | value_deleted ↦ visits false
      ]

  perform_all-IsLevel :
      (before h : ℕ) (more : List Access) (st : State v)
      → IsLevel before h st
      → IsLevel before h (perform_all more st)
  unfolding perform_all
  perform_all-IsLevel before h [] st a = a
  perform_all-IsLevel before h (x ∷ more) st a =
      perform_all-IsLevel before h more _
        (perform-IsLevel before h (x.op) (x.from) (x.subkey) (x.name) st a)

  -- A registry that is created, used, and closed; one that cannot be created is not used.
  abbrev pub use_and_close : List Access → v.World → Option Registry → System → System
  use_and_close uses w none s = s
  use_and_close uses w (some r) s =
      let (r', s', w') = perform_all uses (r, s, w) in (close_registry r' s').1

  use_and_close-Accounted :
      (before h : ℕ) (uses : List Access) (w : v.World) (r : Option Registry) (s : System)
      → Accounted before h (keys_of_handle r) s
      → Accounted before h [] (use_and_close uses w r s)
  unfolding close_registry
  use_and_close-Accounted before h uses w none s a = a
  use_and_close-Accounted before h uses w (some r) s a =
      close_keys-Accounted before h _ _ (perform_all-IsLevel before h uses (r, s, w) a)

  -- Whatever the system answers: if the handle can be made, then over a creation, any number of calls that
  -- read, write or delete values, and the closing, every key is closed as often as it is opened.
  pub session_closes :
      (h : ℕ) (can_create : Bool) (root key : Option Bytes) (o : Options) (uses : List Access)
      (w : v.World) (s : System)
      → times h (s.opened) ≡ times h (s.closed)
      → let made = create_registry can_create root key o true s in
        times h ((use_and_close uses w (made.0) (made.1)).opened)
        ≡ times h ((use_and_close uses w (made.0) (made.1)).closed)
  unfolding Accounted held
  session_closes h can_create root key o uses w s a =
      let made = create_registry can_create root key o true s in
      let created = create_registry-Accounted 0 h can_create root key o s (omega (arith, a)) in
      let ended = use_and_close-Accounted 0 h uses w (made.0) (made.1) created in
      omega (arith, ended)
