-- ===== src/Procrun/Registry/Written.antt =====
-- Values that are written and read again.
use boundary_event_sdk.Prelude.{
  ℕ, zero, suc, ◌+◌, ◌*◌, ◌/◌, ◌%◌, ◌<◌, ◌++◌, ◌∙◌, ap, arith, take, length, length-append, ◌≡◌,
  refl, sym, Bool, true, false, Option, none, some, [], ◌∷◌, Bytes,
}
use boundary_event_sdk.Procrun.Registry.Access.{
  Value, sz, Values, From, State, get_key, use_subkey, get_value, get_string, change, set_str,
  string_of, string_change, string_bytes, bytes_of_units, units_of_bytes,
}

-- What Microsoft documents of the calls on values: a value that is set is there, and one that is deleted is not, for
-- every handle to the key that is open for queries.
pub record Keeps (v : Values) : Type 0 where
  pub set_query :
      (k k' : ℕ) (n : Bytes) (x : Value) (w : v.World)
      → (v.set k n x w).0 ≡ true
      → v.key_of k' ((v.set k n x w).1) ≡ v.key_of k ((v.set k n x w).1)
      → v.may_query k' ((v.set k n x w).1) ≡ true
      → v.query k' n ((v.set k n x w).1) ≡ some x
  pub delete_query :
      (k k' : ℕ) (n : Bytes) (w : v.World)
      → (v.delete k n w).0 ≡ true
      → v.key_of k' ((v.delete k n w).1) ≡ v.key_of k ((v.delete k n w).1)
      → v.query k' n ((v.delete k n w).1) ≡ none

-- The units of a wide string
abbrev pub AreUnits : Bytes → Type 0
AreUnits [] = Unit {0}
AreUnits (c ∷ s) = (c < 65536) × AreUnits s

units_of_bytes-bytes_of_units : (s : Bytes) → AreUnits s → units_of_bytes (bytes_of_units s) ≡ s
unfolding units_of_bytes bytes_of_units
units_of_bytes-bytes_of_units [] h = refl
units_of_bytes-bytes_of_units (c ∷ s) (h, hs) =
    let whole : c % 256 + 256 * ((c / 256) % 256) ≡ c = omega (arith, h) in
    rw (whole, units_of_bytes-bytes_of_units s hs) refl

length-bytes_of_units : (s : Bytes) → length (bytes_of_units s) ≡ length s * 2
unfolding bytes_of_units
length-bytes_of_units [] = refl
length-bytes_of_units (c ∷ s) = omega (arith, length-bytes_of_units s)

take_all : (n : ℕ) (s : Bytes) → length s ≡ n → take n s ≡ s
take_all zero [] e = refl
take_all zero (c ∷ s) e = absurd (omega (arith, e))
take_all (suc n) [] e = refl
take_all (suc n) (c ∷ s) e = rw (take_all n s (omega (arith, e))) refl

AreUnits-append : (s : Bytes) → AreUnits s → AreUnits (s ++ (0 ∷ []))
AreUnits-append [] h = (omega arith, tt)
AreUnits-append (c ∷ s) (h, hs) = (h, AreUnits-append s hs)

-- The bytes that are stored are those of the string and its NUL.
units_of_bytes-string_bytes :
    (t : Bytes) → AreUnits t → units_of_bytes (string_bytes t) ≡ t ++ (0 ∷ [])
unfolding string_bytes
units_of_bytes-string_bytes t h =
    let s = t ++ (0 ∷ []) in
    let size : length (bytes_of_units s) ≡ (length t + 1) * 2 =
      length-bytes_of_units s ∙ ap (λ (n : ℕ). n * 2) (length-append t (0 ∷ [])) in
    rw (take_all ((length t + 1) * 2) (bytes_of_units s) size)
      (units_of_bytes-bytes_of_units s (AreUnits-append t h))

-- The block that is read for a string that was set: its units and the NUL
abbrev pub stored : Option Bytes → Option Bytes
stored none = none
stored (some []) = none
stored (some (c ∷ t)) = some ((c ∷ t) ++ (0 ∷ []))

abbrev pub IsWide : Option Bytes → Type 0
IsWide none = Unit {0}
IsWide (some t) = AreUnits t

module _ (v : Values) (keeps : Keeps v) where
  -- The handle that a call in this state works on
  abbrev pub handle : (create : Bool) (f : From) (subkey : Option Bytes) → State v → Option ℕ
  handle create f subkey (r, s, w) = (use_subkey create (get_key f r) subkey r s).0

  string_change-query :
      (k k' : ℕ) (name : Bytes) (t : Option Bytes) (w : v.World)
      → IsWide t
      → (string_change v name t k w).0 ≡ true
      → v.key_of k' ((string_change v name t k w).1) ≡ v.key_of k ((string_change v name t k w).1)
      → v.may_query k' ((string_change v name t k w).1) ≡ true
      → string_of (v.query k' name ((string_change v name t k w).1)) ≡ stored t
  unfolding string_of string_change
  string_change-query k k' name none w u e same may =
      rw (keeps.delete_query k k' name w e same) refl
  string_change-query k k' name (some []) w u e same may =
      rw (keeps.delete_query k k' name w e same) refl
  string_change-query k k' name (some (c ∷ t)) w u e same may =
      rw (keeps.set_query k k' name (sz (string_bytes (c ∷ t))) w e same may)
        (ap (λ (b : Bytes). some b) (units_of_bytes-string_bytes (c ∷ t) u))

  -- The value that is read through a handle behind a change, and what the change comes to
  find_value-change :
      (f : From) (subkey : Option Bytes) (name : Bytes) (act : ℕ → v.World → Bool × v.World)
      (st : State v) (k k' : ℕ)
      → handle true f subkey st ≡ some k
      → handle false f subkey ((change v true f subkey act st).1) ≡ some k'
      → ((get_value v f subkey name ((change v true f subkey act st).1)).0
          ≡ v.query k' name ((act k (st.2)).1))
        × ((change v true f subkey act st).0 ≡ (act k (st.2)).0)
        × ((change v true f subkey act st).1.2 ≡ (act k (st.2)).1)
  unfolding get_value change
  find_value-change f subkey name act (r, s, w) k k' e e' = rw (e, e') (refl, refl, refl)

  -- What `apxRegistrySetStrW` sets is read by `apxRegistryGetStringW` under the same name, through a handle to the same
  -- key that is open for queries: a block of the string's units and its NUL, or nothing if it was empty or `NULL`.
  pub get_string-set_str :
      (f : From) (subkey : Option Bytes) (name : Bytes) (t : Option Bytes) (st : State v) (k k' : ℕ)
      → IsWide t
      → handle true f subkey st ≡ some k
      → handle false f subkey ((set_str v f subkey name t st).1) ≡ some k'
      → v.key_of k' ((set_str v f subkey name t st).1.2)
        ≡ v.key_of k ((set_str v f subkey name t st).1.2)
      → v.may_query k' ((set_str v f subkey name t st).1.2) ≡ true
      → (set_str v f subkey name t st).0 ≡ true
      → (get_string v f subkey name ((set_str v f subkey name t st).1)).0 ≡ stored t
  unfolding get_string set_str
  get_string-set_str f subkey name t st k k' u e e' same may ok =
      let (read, answer, world) =
        find_value-change f subkey name (string_change v name t) st k k' e e' in
      let done : (string_change v name t k (st.2)).0 ≡ true = sym answer ∙ ok in
      let same' = rw world at same in
      let may' = rw world at may in
      rw read (string_change-query k k' name t (st.2) u done same' may')
