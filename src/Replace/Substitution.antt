-- ===== src/Replace/Substitution.antt =====
-- What `replace` is to compute, by recursion on the template, and how its searches relate to it.
use native.Mathlib.Nat.{zero-add, suc-add, add-suc}
use mathlib.Core.Path.{subst}
use boundary_event_sdk.Prelude.{
  ℕ, zero, suc, ◌+◌, ◌-◌, ◌*◌, ◌≤◌, ◌<◌, ◌≡◌, inl, inr, refl, ap, length, drop, take, length-drop,
  length-append, Bytes, [], ◌∷◌, ◌++◌, none, some, true, false, starts_with, Bool-cases,
  Option-cases, sym, length-take, arith,
}
use boundary_event_sdk.Text.{strstr}
use boundary_event_sdk.Replace.{count_loop}

-- Every occurrence of `m`, found from left to right without overlap, becomes `r`; `skip` bytes of a
-- match are still to be passed over.
unfoldable pub substitute : (m r : Bytes) → (skip : ℕ) → Bytes → Bytes
substitute m r skip [] = []
substitute m r (suc skip) (c ∷ s) = substitute m r skip s
substitute m r zero (c ∷ s) = elim (starts_with m (c ∷ s)) [
  | true ↦ r ++ substitute m r (length m - 1) s
  | false ↦ c ∷ substitute m r zero s
]

unfoldable pub occurrences : (m : Bytes) → (skip : ℕ) → Bytes → ℕ
occurrences m skip [] = 0
occurrences m (suc skip) (c ∷ s) = occurrences m skip s
occurrences m zero (c ∷ s) = elim (starts_with m (c ∷ s)) [
  | true ↦ suc (occurrences m (length m - 1) s)
  | false ↦ occurrences m zero s
]

pub substitute-drop :
    (m r : Bytes) (k : ℕ) (s : Bytes) → substitute m r k s ≡ substitute m r 0 (drop k s)
unfolding substitute
substitute-drop m r zero s = refl
substitute-drop m r (suc k) [] = refl
substitute-drop m r (suc k) (c ∷ s) = substitute-drop m r k s

pub occurrences-drop :
    (m : Bytes) (k : ℕ) (s : Bytes) → occurrences m k s ≡ occurrences m 0 (drop k s)
unfolding occurrences
occurrences-drop m zero s = refl
occurrences-drop m (suc k) [] = refl
occurrences-drop m (suc k) (c ∷ s) = occurrences-drop m k s

pub length-le_of_starts_with : (p s : Bytes) → starts_with p s ≡ true → length p ≤ length s
unfolding starts_with
length-le_of_starts_with [] s h = omega arith
length-le_of_starts_with (x ∷ p) [] h = cc
length-le_of_starts_with (x ∷ p) (y ∷ s) h = ground (arith, length-le_of_starts_with p s)

-- What a search for the nonempty word `x ∷ m` tells about `s`.
pub record Found (x : ℕ) (m : Bytes) (r : Bytes) (s : Bytes) (k : ℕ) : Type 0 where
  pub room : k + suc (length m) ≤ length s
  pub substituted :
      substitute (x ∷ m) r 0 s
      ≡ take k s ++ (r ++ substitute (x ∷ m) r 0 (drop (suc (k + length m)) s))
  pub counted : occurrences (x ∷ m) 0 s ≡ suc (occurrences (x ∷ m) 0 (drop (suc (k + length m)) s))

pred-length : (x : ℕ) (m : Bytes) → length (x ∷ m) - 1 ≡ length m
pred-length x m = omega arith

module _ (x : ℕ) (m r : Bytes) where
  Found-here : (c : ℕ) (s : Bytes) → starts_with (x ∷ m) (c ∷ s) ≡ true → Found x m r (c ∷ s) 0
  unfolding substitute occurrences
  Found-here c s h = record {
    room = omega (arith, length-le_of_starts_with (x ∷ m) (c ∷ s) h);
    substituted =
        rw (h, substitute, pred-length x m, zero-add)
          (ap (◌++◌ r) (substitute-drop (x ∷ m) r (length m) s));
    counted =
        rw (h, occurrences, pred-length x m, zero-add)
          (ap suc (occurrences-drop (x ∷ m) (length m) s));
  }

  Found-later :
      (c : ℕ) (s : Bytes) (k : ℕ)
      → starts_with (x ∷ m) (c ∷ s) ≡ false
      → Found x m r s k
      → Found x m r (c ∷ s) (suc k)
  unfolding substitute occurrences
  Found-later c s k h f = record {
    room = omega (arith, f.room);
    substituted = rw (h, substitute, suc-add) (ap (◌∷◌ c) f.substituted);
    counted = rw (h, occurrences, suc-add) f.counted;
  }

  pub strstr-Found : (s : Bytes) (k : ℕ) → strstr s (x ∷ m) ≡ some k → Found x m r s k
  unfolding strstr
  strstr-Found [] k e = unfold starts_with in cc
  strstr-Found (c ∷ s) k e = elim (Bool-cases (starts_with (x ∷ m) (c ∷ s))) [
    | inl here ↦ subst (Found x m r (c ∷ s)) (ground arith) (Found-here c s here)
    | inr later ↦ elim (Option-cases (strstr s (x ∷ m))) [
      | inl absent ↦ ground arith
      | inr (j, found) ↦
          subst (Found x m r (c ∷ s)) (ground arith)
            (Found-later c s j later (strstr-Found s j found))
    ]
  ]

  pub strstr-none :
      (s : Bytes)
      → strstr s (x ∷ m) ≡ none
      → (substitute (x ∷ m) r 0 s ≡ s) × (occurrences (x ∷ m) 0 s ≡ 0)
  unfolding strstr substitute occurrences
  strstr-none [] e = (refl, refl)
  strstr-none (c ∷ s) e = elim (Bool-cases (starts_with (x ∷ m) (c ∷ s))) [
    | inl here ↦ ground arith
    | inr later ↦ elim (Option-cases (strstr s (x ∷ m))) [
      | inl absent ↦
          let (same, zeros) = strstr-none s absent in
          (rw (later, substitute, same), rw (later, occurrences, zeros))
      | inr (j, found) ↦ ground arith
    ]
  ]

  -- The counting loop counts the occurrences, if it is given more rounds than the text is long.
  pub count_loop-occurrences :
      (fuel : ℕ) (s : Bytes) → length s < fuel → count_loop (x ∷ m) fuel s ≡ occurrences (x ∷ m) 0 s
  unfolding count_loop
  count_loop-occurrences zero s lt = absurd (omega arith)
  count_loop-occurrences (suc fuel) s lt = elim (Option-cases (strstr s (x ∷ m))) [
    | inl absent ↦ rw (absent, count_loop) (sym (strstr-none s absent).1)
    | inr (k, found) ↦
        let f = strstr-Found s k found in
        rw (found, count_loop, f.counted, add-suc)
          (ap suc (
            count_loop-occurrences fuel (drop (suc (k + length m)) s)
              (omega (arith, length-drop (suc (k + length m)) s, f.room))))
  ]

  -- Replacing changes the length by the difference of the words, once for each occurrence.
  pub length-substitute :
      (fuel : ℕ) (s : Bytes)
      → length s < fuel
      → length (substitute (x ∷ m) r 0 s) + suc (length m) * occurrences (x ∷ m) 0 s
        ≡ length s + length r * occurrences (x ∷ m) 0 s
  length-substitute zero s lt = absurd (omega arith)
  length-substitute (suc fuel) s lt = elim (Option-cases (strstr s (x ∷ m))) [
    | inl absent ↦ let (same, zeros) = strstr-none s absent in rw (same, zeros) (omega arith)
    | inr (k, found) ↦
        let f = strstr-Found s k found in
        let rest = drop (suc (k + length m)) s in
        let ih =
          length-substitute fuel rest (omega (arith, length-drop (suc (k + length m)) s, f.room)) in
        rw (f.substituted, f.counted)
          (omega (
            arith,
            ih,
            f.room,
            length-append (take k s) (r ++ substitute (x ∷ m) r 0 rest),
            length-append r (substitute (x ∷ m) r 0 rest),
            length-drop (suc (k + length m)) s,
            length-take k s,
          ))
  ]

longer_words : (z m c l r : ℕ) → z + m * c ≡ l + r * c → m ≤ r → l ≤ z
longer_words z m c l r e h = grind arith

-- A longer word in place of a shorter one makes no text shorter.
pub substitute_grows :
    (x : ℕ) (m r s : Bytes)
    → suc (length m) ≤ length r
    → length s ≤ length (substitute (x ∷ m) r 0 s)
substitute_grows x m r s h =
    longer_words _ (suc (length m)) (occurrences (x ∷ m) 0 s) _ (length r)
      (length-substitute x m r (suc (length s)) s (omega arith)) h

pub substitute-none :
    (x : ℕ) (m r s : Bytes) → occurrences (x ∷ m) 0 s ≡ 0 → substitute (x ∷ m) r 0 s ≡ s
substitute-none x m r s h = elim (Option-cases (strstr s (x ∷ m))) [
  | inl absent ↦ (strstr-none x m r s absent).0
  | inr (k, found) ↦ absurd (omega (arith, h, (strstr-Found x m r s k found).counted))
]
