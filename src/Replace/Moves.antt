-- ===== src/Replace/Moves.antt =====
-- What the two shifting loops of `replace` leave in memory.
use native.Mathlib.Decide.{dec_le}
use boundary_event_sdk.Prelude.{
  ℕ, zero, suc, ◌+◌, ◌-◌, ◌≤◌, ◌<◌, ◌≡◌, ◌≢◌, length, Bytes, ltb, leb, ◌&&◌, if◌then◌else◌, arith,
}
use boundary_event_sdk.Replace.Memory.{
  Mem, update, c_string, length-c_string, Holds, Holds-end, Holds-inside,
}
use boundary_event_sdk.Replace.{move_right, move_left}

-- The cells from `tmp + shift + 1` on hold what stood `shift` cells below; the others are unchanged.
pub move_right_lem :
    (n : ℕ) (f : Mem) (tmp shift i : ℕ)
    → move_right f tmp shift n i
      ≡ (if ltb (tmp + shift) i && leb i (tmp + shift + n) then f (i - shift) else f i)
unfolding move_right update
move_right_lem zero f tmp shift i = ground arith
move_right_lem (suc n) f tmp shift i =
    ground
      (arith, move_right_lem n (update f (tmp + (shift + suc n)) (f (tmp + suc n))) tmp shift i)

-- What `move_left` has done when it stands at `x`.
abbrev moved : Mem → (tmp d start x : ℕ) → Mem
moved f tmp d start x i = if leb (tmp + start) i && ltb i (tmp + (x - d)) then f (i + d) else f i

module _ (bound : ℕ) (f : Mem) (tmp d start l : ℕ) (end : f (tmp + l) ≡ 0)
    (inside : (i : ℕ) → i < l → f (tmp + i) ≢ 0) (room : l < bound) where
  -- The length that each round reads is still the old one, until the NUL has moved.
  length-moved :
      (g : Mem) (x : ℕ)
      → ((i : ℕ) → g i ≡ moved f tmp d start x i)
      → d ≤ x
      → x ≤ l
      → 0 < d
      → length (c_string bound g tmp) ≡ l
  length-moved g x e dx xl dp =
      length-c_string bound l g tmp
        (λ i lt. rw (e (tmp + i)) (ground (arith, inside i, inside (i + d))))
        (ground (arith, e (tmp + l))) room

  length-moved_end :
      (g : Mem)
      → ((i : ℕ) → g i ≡ moved f tmp d start (suc l) i)
      → start + d ≤ l
      → 0 < d
      → length (c_string bound g tmp) ≡ l - d
  length-moved_end g e sl dp =
      length-c_string bound (l - d) g tmp
        (λ i lt. rw (e (tmp + i)) (ground (arith, inside i, inside (i + d))))
        (ground (arith, e (tmp + (l - d)))) (omega arith)

  move_left_step :
      (g : Mem) (x : ℕ)
      → ((i : ℕ) → g i ≡ moved f tmp d start x i)
      → start + d ≤ x
      → 0 < d
      → (i : ℕ) → update g (tmp + (x - d)) (g (tmp + x)) i ≡ moved f tmp d start (x + 1) i
  unfolding update
  move_left_step g x e sx dp i = ground (arith, e i, e (tmp + x))

  pub move_left_run :
      (fuel : ℕ) (g : Mem) (x : ℕ)
      → ((i : ℕ) → g i ≡ moved f tmp d start x i)
      → start + d ≤ x
      → start + d ≤ l
      → 0 < d
      → x ≤ suc l
      → suc l < fuel + x
      → (i : ℕ) → move_left bound g tmp d fuel x i ≡ moved f tmp d start (suc l) i
  unfolding move_left
  move_left_run zero g x e sx sl dp xl fl i = absurd (omega arith)
  move_left_run (suc fuel) g x e sx sl dp xl fl i = elim (dec_le x l) [
    | yes within ↦ ground (
      arith,
      length-moved g x e (omega arith) within dp,
      move_left_run fuel (update g (tmp + (x - d)) (g (tmp + x))) (x + 1)
          (move_left_step g x e sx dp) (omega arith) sl dp (omega arith) (omega arith) i,
    )
    | no out ↦
        let last : x ≡ suc l = omega arith in
        ground (arith, length-moved_end g (λ j. rw (← last) (e j)) sl dp, e i)
  ]

-- The tail from `tmp + start + d`, NUL included, ends up at `tmp + start`; nothing else changes.
pub move_left_lem :
    (bound : ℕ) (f : Mem) (tmp start d : ℕ) (s : Bytes)
    → Holds f tmp s
    → start + d ≤ length s
    → 0 < d
    → length s + 1 < bound
    → (i : ℕ)
    → move_left bound f tmp d bound (start + d) i
      ≡ (if leb (tmp + start) i && ltb i (tmp + (suc (length s) - d)) then f (i + d) else f i)
move_left_lem bound f tmp start d s h sl dp room =
    move_left_run bound f tmp d start (length s) (Holds-end f tmp s h)
      (λ i. Holds-inside i f tmp s h) (omega arith) bound f (start + d) (λ i. ground arith)
      (omega arith) sl dp (omega arith) (omega arith)
