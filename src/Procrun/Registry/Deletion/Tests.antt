-- ===== src/Procrun/Registry/Deletion/Tests.antt =====
-- Deletions in a small registry, whose keys of one name may be protected.
use boundary_event_sdk.Prelude.{
  ℕ, ◌≡◌, ◌≢◌, refl, Bool, true, false, Option, none, some, [], ◌∷◌, Bytes, codes, ◌==◌,
  if◌then◌else◌, arith, str_eq, str_eq_refl, inl, inr,
}
use boundary_event_sdk.Procrun.Registry.Deletion.{
  Keys, end, sub, find_key, put_key, erase_key, subkeys_of, weight, Calls, Documented,
  delete_recursive, turns, delete_registry, Hive, file_not_found, no_more_items,
}
use boundary_event_sdk.Procrun.Registry.Deletion.Whole.{Enumerates, Left, delete_recursive_ends}

-- The code of a deletion, for what is found there
abbrev delete_code : Bool → Option Keys → ℕ
delete_code protected none = 2
delete_code protected (some (sub m k ks)) = 5
delete_code true (some end) = 5
delete_code false (some end) = 0

abbrev open_code : Option Keys → ℕ
open_code none = 2
open_code (some k) = 0

abbrev first_name : Keys → ℕ × Bytes
first_name end = (259, [])
first_name (sub n k ks) = (0, n)

abbrev guarded_delete : Bytes → Keys → Bytes → ℕ × Keys
guarded_delete p ks n =
    let code = delete_code (str_eq p n) (find_key n ks) in
    (code, if code == 0 then erase_key n ks else ks)

abbrev guarded : Bytes → Calls
guarded p = record {
  delete_key = guarded_delete p;
  open_key = λ ks n. open_code (find_key n ks);
  enum_key = first_name;
  open_path = λ ks p. 0;
  delete_path = λ ks p. (5, ks);
}

delete_code_zero : (b : Bool) (o : Option Keys) → delete_code b o ≡ 0 → o ≡ some end
delete_code_zero b none e = absurd (ground (arith, e))
delete_code_zero b (some (sub m k ks)) e = absurd (ground (arith, e))
delete_code_zero true (some end) e = absurd (ground (arith, e))
delete_code_zero false (some end) e = refl

open_code_zero : (o : Option Keys) → open_code o ≡ 0 → o ≢ none
open_code_zero none e h = absurd (ground (arith, e))
open_code_zero (some k) e h = cc

open_code_missing : (o : Option Keys) → open_code o ≡ file_not_found → o ≡ none
open_code_missing none e = refl
open_code_missing (some k) e = absurd (ground (arith, e))

find_key_first : (n : Bytes) (k ks : Keys) → find_key n (sub n k ks) ≢ none
unfolding find_key
find_key_first n k ks h = ground (arith, str_eq_refl n, h)

first_name_found : (ks : Keys) → (first_name ks).0 ≡ 0 → find_key ((first_name ks).1) ks ≢ none
first_name_found end e h = absurd (ground (arith, e))
first_name_found (sub n k ks) e h = find_key_first n k ks h

first_name_end : (ks : Keys) → (first_name ks).0 ≡ no_more_items → ks ≡ end
first_name_end end e = refl
first_name_end (sub n k ks) e = absurd (ground (arith, e))

guarded-Documented : (p : Bytes) → Documented (guarded p)
guarded-Documented p = record {
  deletes = λ ks n e. (delete_code_zero _ (find_key n ks) e, rw e refl);
  keeps = λ ks n h. ground (arith, h);
  opens = λ ks n e. open_code_zero (find_key n ks) e;
  missing = λ ks n e. open_code_missing (find_key n ks) e;
  names = first_name_found;
  ends = first_name_end;
}

guarded-Enumerates : (p : Bytes) → Enumerates (guarded p)
guarded-Enumerates p end = inr refl
guarded-Enumerates p (sub n k ks) = inl refl

-- One service with two keys, beside another.
abbrev services : Keys
services =
    sub (codes "a") (sub (codes "Java") end (sub (codes "Start") (sub (codes "x") end end) end))
      (sub (codes "b") end end)

whole_service :
    delete_recursive (guarded (codes "none")) 20 [] services (codes "a")
    ≡ some (0, sub (codes "b") end end)
unfolding delete_recursive turns find_key put_key erase_key subkeys_of str_eq
whole_service = refl

protected_key :
    delete_recursive (guarded (codes "x")) 20 [] services (codes "a")
    ≡ some (
      5,
      sub (codes "a") (sub (codes "Start") (sub (codes "x") end end) end) (sub (codes "b") end end),
    )
unfolding delete_recursive turns find_key put_key erase_key subkeys_of str_eq
protected_key = refl

delete_recursive_ends_example :
    (r : ℕ × Keys) × (delete_recursive (guarded (codes "x")) 20 [] services (codes "a") ≡ some r)
    × Left (codes "a") services r
delete_recursive_ends_example =
    delete_recursive_ends (guarded (codes "x")) (guarded-Documented (codes "x")) 20 [] services
      (codes "a") (guarded-Enumerates (codes "x"))
      (unfold weight subkeys_of find_key str_eq in omega arith)

abbrev procrun : Keys → Keys
procrun ks = sub (codes "Apache Software Foundation") (sub (codes "Procrun 2.0") ks end) end

abbrev hive_of : Keys → Hive
hive_of ks = record { opened = 0; software = procrun ks }

-- The service is deleted below the root key, whose path has two names, in each hive; the result does not tell that
-- in the second hive it was refused.
service_deleted :
    delete_registry
      (guarded (codes "x"))
      (some (codes "Apache Software Foundation\\Procrun 2.0"))
      (some (codes "a"))
      false
      (hive_of (sub (codes "a") (sub (codes "y") end end) end)
        ∷ hive_of (sub (codes "a") (sub (codes "x") end end) end)
        ∷ [])
    ≡ some (true, hive_of end ∷ hive_of (sub (codes "a") (sub (codes "x") end end) end) ∷ [])
unfolding delete_registry weight str_eq erase_key
service_deleted = refl
