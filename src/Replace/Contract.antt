-- ===== src/Replace/Contract.antt =====
-- What a caller of `replace` may rely on, and where it may not.
use native.Mathlib.Nat.{zero-add}
use native.Mathlib.Decide.{dec_le, dec_lt}
use boundary_event_sdk.Prelude.{
  ℕ, zero, suc, ◌+◌, ◌-◌, ◌*◌, ◌≤◌, ◌<◌, ◌≡◌, inl, inr, ◌∙◌, ap, refl, [], ◌∷◌, ◌++◌, Bytes, length,
  length-append, ℤ, pos, ◌+ℤ◌, ◌-ℤ◌, ◌*ℤ◌, sub_ℕ, leb, ltb_ℤ, some, if◌then◌else◌, false, not,
  arith,
}
use boundary_event_sdk.Replace.Memory.{
  Mem, strcpy, put_bytes, put_bytes-other, update, NoNul, Holds, Holds-end,
}
use boundary_event_sdk.Replace.Substitution.{
  substitute, occurrences, count_loop-occurrences, length-substitute, substitute-none,
}
use boundary_event_sdk.Replace.Result.{IsReplaced, replace_loop_lem}
use boundary_event_sdk.Replace.{replace_loop, count_loop, copy_only, substitute_into, replace}

diff_le : (r m : ℕ) → m ≤ r → pos r -ℤ pos m ≡ pos (r - m)
unfolding ◌-ℤ◌
diff_le r m h = ground arith

diff_lt : (r m : ℕ) → r < m → pos r -ℤ pos m ≡ sub_ℕ 0 (m - r)
unfolding ◌-ℤ◌
diff_lt r m h = ground arith

times_pos : (a c : ℕ) → pos a *ℤ pos c ≡ pos (a * c)
unfolding ◌*ℤ◌
times_pos a c = ground arith

times_neg : (a c : ℕ) → sub_ℕ 0 a *ℤ pos c ≡ sub_ℕ 0 (a * c)
unfolding ◌*ℤ◌
times_neg zero c = ground arith
times_neg (suc a) c = ground arith

plus_pos : (a b : ℕ) → pos a +ℤ pos b ≡ pos (a + b)
unfolding ◌+ℤ◌
plus_pos a b = ground arith

plus_neg : (a b : ℕ) → b ≤ a → pos a +ℤ sub_ℕ 0 b ≡ pos (a - b)
unfolding ◌+ℤ◌
plus_neg a b h = ground arith

-- The `int` that the code computes for the new length is the new length.
nlen_lem : (o r m c z : ℕ) → z + m * c ≡ o + r * c → pos o +ℤ (pos r -ℤ pos m) *ℤ pos c ≡ pos z
nlen_lem o r m c z e = elim (dec_le m r) [
  | yes le ↦
      let whole : (r - m) + m ≡ r = omega arith in
      rw (diff_le r m le, times_pos (r - m) c, plus_pos)
        (ap pos (omega (arith, ap (λ (t : ℕ). t * c) whole)))
  | no gt ↦
      let whole : (m - r) + r ≡ m = omega arith in
      rw
        (
          diff_lt r m (omega arith),
          times_neg (m - r) c,
          plus_neg o ((m - r) * c) (omega (arith, ap (λ (t : ℕ). t * c) whole)),
        )
        (ap pos (omega (arith, ap (λ (t : ℕ). t * c) whole)))
]

-- `strcpy` puts the string at the start, and writes no cell behind its NUL.
Holds-put_nul : (s : Bytes) (f : Mem) (p : ℕ) → NoNul s → Holds (put_bytes f p (s ++ 0 ∷ [])) p s
unfolding put_bytes
Holds-put_nul [] f p n = ground arith
Holds-put_nul (c ∷ s) f p n = (
  put_bytes-other (s ++ 0 ∷ []) (update f p c) (suc p) p (inl (omega arith)) ∙ ground arith,
  n.0,
  Holds-put_nul s (update f p c) (suc p) n.1,
)

strcpy-Holds : (f : Mem) (s : Bytes) → NoNul s → Holds (strcpy f s) 0 s
unfolding strcpy
strcpy-Holds f s n = Holds-put_nul s f 0 n

strcpy-other : (f : Mem) (s : Bytes) (i : ℕ) → length s < i → strcpy f s i ≡ f i
unfolding strcpy
strcpy-other f s i lt =
    put_bytes-other (s ++ 0 ∷ []) f 0 i (inr (omega (arith, length-append s (0 ∷ []))))

module _ (f : Mem) (n : ℕ) (old : Bytes) (x : ℕ) (m r : Bytes) where
  abbrev result : ℤ × Mem
  result = replace false f (pos n) (some old) (some (x ∷ m)) (some r)

  abbrev wanted : Bytes
  wanted = substitute (x ∷ m) r 0 old

  counted : count_loop (x ∷ m) (suc (length old)) old ≡ occurrences (x ∷ m) 0 old
  counted = count_loop-occurrences x m r (suc (length old)) old (omega arith)

  sized :
      pos (length old)
        +ℤ (pos (length r) -ℤ pos (length (x ∷ m))) *ℤ pos (occurrences (x ∷ m) 0 old)
      ≡ pos (length wanted)
  sized =
      nlen_lem (length old) (length r) (length (x ∷ m)) (occurrences (x ∷ m) 0 old) (length wanted)
        (length-substitute x m r (suc (length old)) old (omega arith))

  abbrev final : Mem
  final =
      replace_loop (suc (suc (length old + length r * occurrences (x ∷ m) 0 old))) (x ∷ m) r
        (pos (length r) -ℤ pos (length (x ∷ m))) (suc (occurrences (x ∷ m) 0 old)) (strcpy f old) 0

  -- The tests of the code, in terms of what it counts.
  result-tests : result ≡ (
      if leb (occurrences (x ∷ m) 0 old) 0
      then copy_only f (pos n) old
      else if not (ltb_ℤ (pos (length wanted)) (pos n))
      then (pos (length wanted) +ℤ pos 1, f)
      else (pos 0, final))
  unfolding replace substitute_into
  result-tests = rw (counted, sized) (ground arith)

  unchanged : occurrences (x ∷ m) 0 old ≡ 0 → length wanted ≡ length old
  unchanged none_found =
      omega (arith, rw none_found at (length-substitute x m r (suc (length old)) old (omega arith)))

  -- A buffer of `n` bytes that the new text and its NUL do not fit is left as it is, and the
  -- size that is needed is returned.
  pub replace_too_small : n ≤ length wanted → result ≡ (pos (length wanted + 1), f)
  unfolding copy_only ◌+ℤ◌
  replace_too_small small = elim (dec_lt 0 (occurrences (x ∷ m) 0 old)) [
    | yes some_found ↦ rw result-tests (ground arith)
    | no none_found ↦ let same = unchanged (omega arith) in rw result-tests (ground arith)
  ]

  module _ (text : NoNul old) (by : NoNul r) where
    finished : IsReplaced (strcpy f old) final 0 (x ∷ m) r old
    finished =
        replace_loop_lem (suc (suc (length old + length r * occurrences (x ∷ m) 0 old))) x m r by
          (suc (occurrences (x ∷ m) 0 old)) (strcpy f old) 0 old (strcpy-Holds f old text)
          (omega arith) (omega arith)

    ran : 0 < occurrences (x ∷ m) 0 old → length wanted < n → result ≡ (pos 0, final)
    ran some_found fits = rw result-tests (ground arith)

    copied : occurrences (x ∷ m) 0 old ≡ 0 → length old < n → result ≡ (pos 0, strcpy f old)
    unfolding copy_only
    copied none_found fits = rw result-tests (ground arith)

    -- If both the template and the new text fit the buffer of `n` bytes, with their NUL, the
    -- buffer holds the template with every occurrence of the word replaced, 0 is returned, and no
    -- byte `i` behind the buffer has changed.
    pub replace_fits :
        length old < n
        → length wanted < n
        → (i : ℕ) → n ≤ i
        → (result.0 ≡ pos 0) × Holds result.1 0 wanted × (result.1 i ≡ f i)
    replace_fits fits_old fits i le = elim (dec_lt 0 (occurrences (x ∷ m) 0 old)) [
      | yes some_found ↦ rw (ran some_found fits) (
        refl,
        finished.holds,
        finished.above i (omega arith) (omega arith) ∙ strcpy-other f old i (omega arith),
      )
      | no none_found ↦ rw (copied (omega arith) fits_old) (
        refl,
        rw (substitute-none x m r old (omega arith)) (strcpy-Holds f old text),
        strcpy-other f old i (omega arith),
      )
    ]

    -- A template that does not fit the buffer is copied all the same if its replacement fits: its
    -- NUL lands outside the buffer of `n` bytes, and stays there.
    pub replace_overruns :
        0 < occurrences (x ∷ m) 0 old
        → length wanted < n
        → n ≤ length old
        → (result.0 ≡ pos 0) × (result.1 (length old) ≡ 0)
    replace_overruns some_found fits too_long = rw (ran some_found fits) (
      refl,
      finished.above (length old) (omega arith) (omega arith)
          ∙ (rw zero-add at (Holds-end (strcpy f old) 0 old (strcpy-Holds f old text))),
    )
