-- ===== src/Procrun/Registry/Deletion/Whole.antt =====
-- What a deletion leaves of the keys, and how many rounds it takes.
use boundary_event_sdk.Prelude.{
  ℕ, zero, suc, ◌+◌, ◌*◌, ◌≤◌, ◌≡◌, ◌≢◌, ◌⊎◌, inl, inr, refl, sym, true, false, Option, none, some,
  Bytes, ◌==◌, arith, if◌then◌else◌, if_elim, Bool-cases, Option-cases, ==_iff,
}
use boundary_event_sdk.Procrun.Registry.Deletion.{
  Keys, end, sub, find_key, put_key, erase_key, weight, subkeys_of, Calls, Documented,
  delete_recursive, turns, no_more_items, file_not_found,
}

erase_key-put_key : (n : Bytes) (k ks : Keys) → erase_key n (put_key n k ks) ≡ erase_key n ks
unfolding erase_key put_key
erase_key-put_key n k end = refl
erase_key-put_key n k (sub m j ks) = ground (arith, erase_key-put_key n k ks)

find_key-put_key :
    (n : Bytes) (k ks : Keys) → find_key n ks ≢ none → find_key n (put_key n k ks) ≡ some k
unfolding find_key put_key
find_key-put_key n k end h = absurd (h refl)
find_key-put_key n k (sub m j ks) h = ground (arith, h, find_key-put_key n k ks)

put_key_same : (n : Bytes) (ks : Keys) → put_key n (subkeys_of n ks) ks ≡ ks
unfolding put_key subkeys_of find_key
put_key_same n end = refl
put_key_same n (sub m k ks) = ground (arith, put_key_same n ks)

erase_key_missing : (n : Bytes) (ks : Keys) → find_key n ks ≡ none → erase_key n ks ≡ ks
unfolding erase_key find_key
erase_key_missing n end h = refl
erase_key_missing n (sub m k ks) h = ground (arith, h, erase_key_missing n ks)

-- A key that is there weighs itself and its subkeys.
weight-erase_key :
    (n : Bytes) (ks : Keys)
    → find_key n ks ≢ none
    → weight ks ≡ suc (weight (subkeys_of n ks) + weight (erase_key n ks))
unfolding weight subkeys_of find_key erase_key
weight-erase_key n end h = absurd (h refl)
weight-erase_key n (sub m k ks) h = ground (arith, h, weight-erase_key n ks)

-- No access is denied.
pub record Granted (c : Calls) : Type 0 where
  pub deletable : (ks : Keys) (n : Bytes) → find_key n ks ≡ some end → (c.delete_key ks n).0 ≡ 0
  pub openable : (ks : Keys) (n : Bytes) → find_key n ks ≢ none → c.open_key ks n ≡ 0
  pub absent : (ks : Keys) (n : Bytes) → find_key n ks ≡ none → c.open_key ks n ≡ file_not_found

-- The enumeration gives a name or is at its end.
abbrev pub Enumerates : Calls → Type 0
Enumerates c = (ks : Keys) → ((c.enum_key ks).0 ≡ 0) ⊎ ((c.enum_key ks).0 ≡ no_more_items)

-- The code is 0 and the key is gone, or it is an error and no key is changed but those under it.
abbrev pub Left : Bytes → Keys → ℕ × Keys → Type 0
Left n ks (code, ks') =
    ((code ≡ 0) × (ks' ≡ erase_key n ks)) ⊎ ((code ≢ 0) × ((k : Keys) × (ks' ≡ put_key n k ks)))

is_not : (a b : ℕ) → (a == b) ≡ false → a ≢ b
is_not a b h e = ground (arith, h, e)

module _ (c : Calls) (doc : Documented c) where
  unfoldable Done : Bytes → Keys → Option (ℕ × Keys) → Type 0
  Done n ks none = false ≡ true
  Done n ks (some r) = Left n ks r × (Granted c → r.0 ≡ 0)

  Done-pair :
      (n : Bytes) (ks : Keys) (r : ℕ × Keys)
      → (r.0 ≡ 0 → r.1 ≡ erase_key n ks)
      → (r.0 ≢ 0 → (k : Keys) × (r.1 ≡ put_key n k ks))
      → (Granted c → r.0 ≡ 0)
      → Done n ks (some r)
  unfolding Done
  Done-pair n ks r gone kept granted = elim (Bool-cases (r.0 == 0)) [
    | inl h ↦ let z : r.0 ≡ 0 = (==_iff (r.0) 0).0 h in (inl (z, gone z), granted)
    | inr h ↦ let ne : r.0 ≢ 0 = is_not (r.0) 0 h in (inr (ne, kept ne), granted)
  ]

  -- The call of `RegDeleteKeyW` that ends a loop
  last-Done :
      (n : Bytes) (ks k : Keys)
      → k ≡ end
      → find_key n ks ≢ none
      → Done n ks (some (c.delete_key (put_key n k ks) n))
  last-Done n ks k e there =
      Done-pair n ks (c.delete_key (put_key n k ks) n)
        (λ z. rw ((doc.deletes (put_key n k ks) n z).1) (erase_key-put_key n k ks))
        (λ ne. (k, doc.keeps (put_key n k ks) n ne))
        (λ g. g.deletable (put_key n k ks) n (rw e (find_key-put_key n end ks there)))

  -- A loop that goes on with what a deeper call has left, or ends with its code
  after_deeper-Done :
      (n given : Bytes) (ks k : Keys) (r : Option (ℕ × Keys)) (next : Keys → Option (ℕ × Keys))
      → Done given k r
      → (Done n ks (next (erase_key given k)))
      → Done n ks (elim r [
        | none ↦ none
        | some (code, k') ↦ if code == 0 then next k' else some (code, put_key n k' ks)
      ])
  unfolding Done
  after_deeper-Done n given ks k none next d go = d
  after_deeper-Done n given ks k (some (code, k')) next (inl (z, e), g) go = rw (z, e) go
  after_deeper-Done n given ks k (some (code, k')) next (inr (ne, kept), g) go =
      if_elim (Done n ks) (code == 0) _ _ (λ h. absurd (ne ((==_iff code 0).0 h)))
        (λ _. (inr (ne, (k', refl)), g))

  -- The first call of `RegDeleteKeyW`, and the answer to `RegOpenKeyExW` behind it
  opening-Done :
      (n : Bytes) (ks : Keys) (opened : Keys → Option (ℕ × Keys))
      → (find_key n ks ≢ none → Done n ks (opened ks))
      → Done n ks (
          if (c.delete_key ks n).0 == 0
          then some (0, (c.delete_key ks n).1)
          else if c.open_key ((c.delete_key ks n).1) n == 0
          then opened ((c.delete_key ks n).1)
          else if c.open_key ((c.delete_key ks n).1) n == file_not_found
          then some (0, (c.delete_key ks n).1)
          else some (c.open_key ((c.delete_key ks n).1) n, (c.delete_key ks n).1))
  opening-Done n ks opened go =
      if_elim (Done n ks) ((c.delete_key ks n).0 == 0) _ _
        (λ h.
          Done-pair n ks (0, (c.delete_key ks n).1)
            (λ _. (doc.deletes ks n ((==_iff ((c.delete_key ks n).0) 0).0 h)).1)
            (λ ne. absurd (ne refl)) (λ _. refl))
        (λ failed. rw (doc.keeps ks n (is_not ((c.delete_key ks n).0) 0 failed)) (
          if_elim (Done n ks) (c.open_key ks n == 0) _ _
            (λ h. go (doc.opens ks n ((==_iff (c.open_key ks n) 0).0 h)))
            (λ closed.
              if_elim (Done n ks) (c.open_key ks n == file_not_found) _ _
                (λ h.
                  Done-pair n ks (0, ks)
                    (λ _. sym (
                      erase_key_missing n ks
                        (doc.missing ks n ((==_iff (c.open_key ks n) file_not_found).0 h))))
                    (λ ne. absurd (ne refl)) (λ _. refl))
                (λ other.
                  Done-pair n ks (c.open_key ks n, ks)
                    (λ z. absurd (is_not (c.open_key ks n) 0 closed z))
                    (λ _. (subkeys_of n ks, sym (put_key_same n ks)))
                    (λ g. elim (Option-cases (find_key n ks)) [
                      | inl e ↦
                          absurd (is_not (c.open_key ks n) file_not_found other (g.absent ks n e))
                      | inr (k, e) ↦ g.openable ks n (λ no. cc)
                    ])))))

  -- On enough fuel both come to an end, whatever access is denied.
  mutual
    unfolding delete_recursive turns

    delete_recursive-Done :
        (f : ℕ) (buff : Bytes) (ks : Keys) (n : Bytes)
        → Enumerates c
        → 2 * weight (subkeys_of n ks) + 2 ≤ f
        → Done n ks (delete_recursive c f buff ks n)
    delete_recursive-Done zero buff ks n en fuel = absurd (omega arith)
    delete_recursive-Done (suc f) buff ks n en fuel =
        opening-Done n ks (λ ks'. turns c f buff ks' n (subkeys_of n ks'))
          (λ there. turns-Done f buff ks n (subkeys_of n ks) en there (omega arith))

    turns-Done :
        (f : ℕ) (buff : Bytes) (ks : Keys) (n : Bytes) (k : Keys)
        → Enumerates c
        → find_key n ks ≢ none
        → 2 * weight k + 1 ≤ f
        → Done n ks (turns c f buff ks n k)
    turns-Done zero buff ks n k en there fuel = absurd (omega arith)
    turns-Done (suc f) buff ks n k en there fuel = elim (en k) [
      | inr e ↦ rw e (last-Done n ks k (doc.ends k e) there)
      | inl e ↦
          let name : Bytes = (c.enum_key k).1 in
          let given : Bytes = if (c.enum_key k).0 == 0 then (c.enum_key k).1 else buff in
          let lighter = weight-erase_key name k (doc.names k e) in
          rw e (
            after_deeper-Done n name ks k (delete_recursive c f buff k name)
              (λ k'. turns c f given ks n k')
              (delete_recursive-Done f buff k name en (omega (arith, lighter)))
              (turns-Done f given ks n (erase_key name k) en there (omega (arith, lighter))))
    ]

  -- Whatever access is denied, a deletion on fuel of twice the subkeys and two ends. Its code is 0 and the key is
  -- gone, or it is an error and no key is changed but those under it.
  pub delete_recursive_ends :
      (f : ℕ) (buff : Bytes) (ks : Keys) (n : Bytes)
      → Enumerates c
      → 2 * weight (subkeys_of n ks) + 2 ≤ f
      → (r : ℕ × Keys) × (delete_recursive c f buff ks n ≡ some r) × Left n ks r
  unfolding Done
  delete_recursive_ends f buff ks n en fuel =
      let done = delete_recursive-Done f buff ks n en fuel in
      elim (Option-cases (delete_recursive c f buff ks n)) [
        | inl e ↦ let no : false ≡ true = rw e at done in absurd (ground (arith, no))
        | inr (r, e) ↦ let yes = rw e at done in (r, e, yes.0)
      ]

  -- Without denied accesses the code is 0.
  pub delete_recursive-Granted :
      (f : ℕ) (buff : Bytes) (ks : Keys) (n : Bytes)
      → Enumerates c
      → Granted c
      → 2 * weight (subkeys_of n ks) + 2 ≤ f
      → (r : ℕ × Keys) × (delete_recursive c f buff ks n ≡ some r) × (r.0 ≡ 0)
  unfolding Done
  delete_recursive-Granted f buff ks n en granted fuel =
      let done = delete_recursive-Done f buff ks n en fuel in
      elim (Option-cases (delete_recursive c f buff ks n)) [
        | inl e ↦ let no : false ≡ true = rw e at done in absurd (ground (arith, no))
        | inr (r, e) ↦ let yes = rw e at done in (r, e, yes.1 granted)
      ]
