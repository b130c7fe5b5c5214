-- ===== src/Procrun/Registry/Deletion.antt =====
-- The deletion of keys: `apxDeleteRegistryRecursive` and `apxDeleteRegistryW`. A key is the list of its
-- subkeys with their names; its values go with it. What the system answers to `RegDeleteKeyW`,
-- `RegOpenKeyExW` and `RegEnumKeyExW` is a parameter.
pub mod Whole
pub mod Spin
pub mod Tests
use mathlib.Core.Option
use boundary_event_sdk.Prelude.{
  ℕ, zero, suc, ◌+◌, ◌*◌, Bool, true, false, not, ◌||◌, ◌≡◌, ◌≢◌, Option, none, some, List, [], ◌∷◌,
  ◌++◌, Bytes, codes, length, ltb, ◌==◌, if◌then◌else◌, str_eq,
}

pub data Keys : Type 0 where
  end : Keys
  sub : (name : Bytes) (subkeys rest : Keys) → Keys

unfoldable pub find_key : Bytes → Keys → Option Keys
find_key n end = none
find_key n (sub m k ks) = let rest = find_key n ks in if str_eq n m then some k else rest

unfoldable pub put_key : Bytes → Keys → Keys → Keys
put_key n k' end = end
put_key n k' (sub m k ks) =
    let rest = put_key n k' ks in if str_eq n m then sub m k' ks else sub m k rest

unfoldable pub erase_key : Bytes → Keys → Keys
erase_key n end = end
erase_key n (sub m k ks) = let rest = erase_key n ks in if str_eq n m then ks else sub m k rest

abbrev pub file_not_found : ℕ
file_not_found = 2

abbrev pub no_more_items : ℕ
no_more_items = 259

-- The codes of the calls on the subkeys of an open key, with the subkeys that are left, and the name that
-- the enumeration gives at index 0.
pub record Calls : Type 0 where
  pub delete_key : Keys → Bytes → ℕ × Keys
  pub open_key : Keys → Bytes → ℕ
  pub enum_key : Keys → ℕ × Bytes
  -- The same two with a path of several names
  pub open_path : Keys → Bytes → ℕ
  pub delete_path : Keys → Bytes → ℕ × Keys

-- What Microsoft documents: a key is deleted if it is there, has no subkeys and the access is granted, and
-- stays as it is otherwise; only a key that is not there is not found; and the enumeration gives the name
-- of a subkey, and is at its end if there is none.
pub record Documented (c : Calls) : Type 0 where
  pub deletes :
      (ks : Keys) (n : Bytes)
      → (c.delete_key ks n).0 ≡ 0
      → (find_key n ks ≡ some end) × ((c.delete_key ks n).1 ≡ erase_key n ks)
  pub keeps : (ks : Keys) (n : Bytes) → ((c.delete_key ks n).0 ≢ 0) → (c.delete_key ks n).1 ≡ ks
  pub opens : (ks : Keys) (n : Bytes) → c.open_key ks n ≡ 0 → find_key n ks ≢ none
  pub missing : (ks : Keys) (n : Bytes) → c.open_key ks n ≡ file_not_found → find_key n ks ≡ none
  pub names : (ks : Keys) → (c.enum_key ks).0 ≡ 0 → find_key ((c.enum_key ks).1) ks ≢ none
  pub ends : (ks : Keys) → (c.enum_key ks).0 ≡ no_more_items → ks ≡ end

unfoldable pub subkeys_of : Bytes → Keys → Keys
unfolding find_key
subkeys_of n ks = elim (find_key n ks) [ none ↦ end | some k ↦ k ]

-- The names of a path, which backslashes part; one at its end parts nothing.
abbrev pub add_unit : ℕ → List Bytes → List Bytes
add_unit c [] = (c ∷ []) ∷ []
add_unit c (n ∷ ns) = (c ∷ n) ∷ ns

unfoldable pub path_names : Bytes → List Bytes
path_names [] = []
path_names (c ∷ []) = if c == b'\\' then [] else (c ∷ []) ∷ []
path_names (c ∷ d ∷ s) =
    let rest = path_names (d ∷ s) in
    if c == b'\\' then rest else if d == b'\\' then (c ∷ []) ∷ rest else add_unit c rest

-- The subkeys of the key at a path, and the keys with others in their place
unfoldable pub keys_at : List Bytes → Keys → Keys
unfolding subkeys_of
keys_at [] ks = ks
keys_at (n ∷ ns) ks = keys_at ns (subkeys_of n ks)

unfoldable pub put_at : List Bytes → Keys → Keys → Keys
unfolding subkeys_of put_key
put_at [] k' ks = k'
put_at (n ∷ ns) k' ks = put_key n (put_at ns k' (subkeys_of n ks)) ks

-- How many keys there are
unfoldable pub weight : Keys → ℕ
weight end = 0
weight (sub n k ks) = suc (weight k + weight ks)

-- A hive: the code of opening its SOFTWARE key, and that key
pub record Hive : Type 0 where
  pub opened : ℕ
  pub software : Keys

abbrev pub resource_max : ℕ
resource_max = 255

abbrev pub or_default : Option Bytes → Bytes
or_default none = codes "Apache Software Foundation"
or_default (some root) = root

module _ (c : Calls) where
  -- The two loops call each other on fuel. `turns` is the loop on the open key `n`, with its subkeys `k` so
  -- far and the buffer `buff` of the enumeration.
  unfoldable mutual
    pub delete_recursive : (fuel : ℕ) (buff : Bytes) (ks : Keys) (n : Bytes) → Option (ℕ × Keys)
    delete_recursive zero buff ks n = none
    delete_recursive (suc f) buff ks n =
        let (rc, ks') = c.delete_key ks n in
        let code = c.open_key ks' n in
        let opened = turns f buff ks' n (subkeys_of n ks') in
        if rc == 0
        then some (0, ks')
        else if code == 0
        then opened
        else if code == file_not_found
        then some (0, ks')
        else some (code, ks')

    pub turns : (fuel : ℕ) (buff : Bytes) (ks : Keys) (n : Bytes) (k : Keys) → Option (ℕ × Keys)
    turns zero buff ks n k = none
    turns (suc f) buff ks n k =
        let (rc, name) = c.enum_key k in
        let given = if rc == 0 then name else buff in
        let deeper = delete_recursive f buff k given in
        if rc == no_more_items then some (c.delete_key (put_key n k ks) n) else elim deeper [
          | none ↦ none
          | some (code, k') ↦
              let next = turns f given ks n k' in
              if code == 0 then next else some (code, put_key n k' ks)
        ]

  -- Enough fuel for the key `n`, by its weight
  unfoldable pub delete_whole : (ks : Keys) (n : Bytes) → Option (ℕ × Keys)
  unfolding delete_recursive
  delete_whole ks n = delete_recursive (2 * weight (subkeys_of n ks) + 2) [] ks n

  -- The root key of a hive's SOFTWARE key, at the path `root`, is open: the key `n` in it, and what `rv` is then
  unfoldable pub delete_in_root :
      (software : Keys) (root n : Bytes) (rv : Bool) → Option (Bool × Keys)
  unfolding delete_whole path_names keys_at put_at
  delete_in_root software root n rv = elim (delete_whole (keys_at (path_names root) software) n) [
    | none ↦ none
    | some (rc, ks) ↦ some (rv || rc == 0, put_at (path_names root) ks software)
  ]

  -- `delete_empty` is `bDeleteEmptyRoot`.
  unfoldable pub sweep_root :
      (hive : Hive) (root : Bytes) (delete_empty : Bool) → Bool × Keys → Bool × Hive
  sweep_root hive root delete_empty (rv, ks) =
      let swept = if delete_empty then (c.delete_path ks root).1 else ks in
      (rv, record hive { software = swept })

  -- One turn of the loop over the hives
  unfoldable pub delete_in_hive :
      (hive : Hive) (root n : Bytes) (delete_empty rv : Bool) → Option (Bool × Hive)
  unfolding delete_in_root sweep_root
  delete_in_hive hive root n delete_empty rv =
      let code = c.open_path (hive.software) root in
      let inside = delete_in_root (hive.software) root n rv in
      if not (hive.opened == 0)
      then some (false, hive)
      else Option.map (sweep_root hive root delete_empty)
          (if code == 0 then inside else some (rv, hive.software))

  unfoldable pub delete_in_hives :
      (hives : List Hive) (root n : Bytes) (delete_empty rv : Bool) → Option (Bool × List Hive)
  unfolding delete_in_hive
  delete_in_hives [] root n delete_empty rv = some (rv, [])
  delete_in_hives (h ∷ hs) root n delete_empty rv = elim (delete_in_hive h root n delete_empty rv) [
    | none ↦ none
    | some (rv', h') ↦
        Option.map (λ (r : Bool × List Hive). (r.0, h' ∷ r.1))
          (delete_in_hives hs root n delete_empty rv')
  ]

  -- `apxDeleteRegistryW`
  unfoldable pub delete_registry :
      (root key_name : Option Bytes) (delete_empty : Bool) (hives : List Hive)
      → Option (Bool × List Hive)
  unfolding delete_in_hives
  delete_registry root none delete_empty hives = some (false, hives)
  delete_registry root (some n) delete_empty hives =
      if ltb resource_max (length n) || ltb resource_max (length (or_default root))
      then some (false, hives)
      else delete_in_hives hives (or_default root ++ codes "\\") n delete_empty true
