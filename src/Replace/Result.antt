-- ===== src/Replace/Result.antt =====
-- What `replace` leaves in memory, and what it returns.
use native.Mathlib.Nat.{add-suc, mul-suc}
use boundary_event_sdk.Prelude.{
  ℕ, zero, suc, ◌+◌, ◌-◌, ◌*◌, ◌≤◌, ◌<◌, ◌≡◌, inl, inr, ◌∙◌, ap, refl, ◌∷◌, ◌++◌, Bytes, length,
  drop, take, drop-drop, length-drop, length-take, length-append, pos, negsuc, ◌-ℤ◌, none, some,
  Option-cases, arith,
}
use native.Mathlib.Decide.{dec_le, dec_lt}
use boundary_event_sdk.Text.{strstr}
use boundary_event_sdk.Replace.Memory.{
  Mem, c_string, c_string-Holds, put_bytes, put_bytes-other, NoNul, Holds, Holds-move, Holds-drop,
}
use boundary_event_sdk.Replace.Reads.{Reads, Reads-take, Reads-put_bytes, Reads-same, Reads-append}
use boundary_event_sdk.Replace.Moves.{move_right_lem, move_left_lem}
use boundary_event_sdk.Replace.Substitution.{
  substitute, occurrences, substitute_grows, Found, strstr-Found, strstr-none,
}
use boundary_event_sdk.Replace.{make_room, replace_loop}

diff-zero : (r m : ℕ) → r ≡ m → pos r -ℤ pos m ≡ pos 0
unfolding ◌-ℤ◌
diff-zero r m h = ground arith

diff-pos : (r m : ℕ) → m < r → pos r -ℤ pos m ≡ pos (suc (r - m - 1))
unfolding ◌-ℤ◌
diff-pos r m h = ground arith

diff-negsuc : (r m : ℕ) → r < m → pos r -ℤ pos m ≡ negsuc (m - r - 1)
unfolding ◌-ℤ◌
diff-negsuc r m h = ground arith

-- `g` is `f` with the text behind the first `m` bytes of `s`, at `p`, moved to `p + r`.
record IsMoved (f g : Mem) (p m r : ℕ) (s : Bytes) : Type 0 where
  tail : Holds g (p + r) (drop m s)
  below : (i : ℕ) → i < p → g i ≡ f i
  above : (i : ℕ) → p + length s ≤ i → p + r + (length s - m) < i → g i ≡ f i

module _ (bound : ℕ) (f : Mem) (p m : ℕ) (s : Bytes) (h : Holds f p s) (fits : m ≤ length s)
    (room : length s + 1 < bound) (some_word : 0 < m) where
  tail_moves :
      (g : Mem) (r : ℕ)
      → ((i : ℕ) → i ≤ length s - m → g (p + r + i) ≡ f (p + m + i))
      → Holds g (p + r) (drop m s)
  tail_moves g r e =
      Holds-move (drop m s) f g (p + m) (p + r) (λ i le. e i (omega (arith, length-drop m s)))
        (Holds-drop m f p s h fits)

  make_room-zero : (r : ℕ) → r ≡ m → IsMoved f (make_room bound f p m (pos 0)) p m r s
  unfolding make_room
  make_room-zero r e = record {
    tail = rw e (Holds-drop m f p s h fits);
    below = λ i lt. refl;
    above = λ i a b. refl;
  }

  make_room-pos :
      (r k : ℕ) → r ≡ m + suc k → IsMoved f (make_room bound f p m (pos (suc k))) p m r s
  unfolding make_room
  make_room-pos r k e = rw (c_string-Holds bound f p s h (omega arith)) (record {
    tail =
        tail_moves _ r (λ i le. ground (arith, move_right_lem (length s) f p (suc k) (p + r + i)));
    below = λ i lt. ground (arith, move_right_lem (length s) f p (suc k) i);
    above = λ i a b. ground (arith, move_right_lem (length s) f p (suc k) i);
  })

  make_room-negsuc :
      (r k : ℕ) → m ≡ r + suc k → IsMoved f (make_room bound f p m (negsuc k)) p m r s
  unfolding make_room
  make_room-negsuc r k e =
      let left =
        λ (i : ℕ). move_left_lem bound f p r (suc k) s h (omega arith) (omega arith) room i in
      rw e (record {
        tail = rw (← e) (tail_moves _ r (λ i le. rw e (ground (arith, left (p + r + i)))));
        below = λ i lt. ground (arith, left i);
        above = λ i a b. ground (arith, left i);
      })

  make_room_lem : (r : ℕ) → IsMoved f (make_room bound f p m (pos r -ℤ pos m)) p m r s
  make_room_lem r = elim (dec_lt r m) [
    | yes lt ↦ rw (diff-negsuc r m lt) (make_room-negsuc r (m - r - 1) (omega arith))
    | no ge ↦ elim (dec_lt m r) [
      | yes gt ↦ rw (diff-pos r m gt) (make_room-pos r (r - m - 1) (omega arith))
      | no le ↦ rw (diff-zero r m (omega arith)) (make_room-zero r (omega arith))
    ]
  ]

-- What the loop makes of memory `f`, where `s` stands at `p`: `r` for each occurrence of the word.
pub record IsReplaced (f g : Mem) (p : ℕ) (word r s : Bytes) : Type 0 where
  pub holds : Holds g p (substitute word r 0 s)
  pub below : (i : ℕ) → i < p → g i ≡ f i
  pub above : (i : ℕ) → p + length s ≤ i → p + length (substitute word r 0 s) < i → g i ≡ f i

module _ (bound x : ℕ) (m r : Bytes) (nonul : NoNul r) where
  abbrev word : Bytes
  word = x ∷ m

  abbrev loop : ℕ → Mem → ℕ → Mem
  loop = replace_loop bound word r (pos (length r) -ℤ pos (length word))

  abbrev Fits : Bytes → Type 0
  Fits s = length s + length r * occurrences word 0 s + 1 < bound

  abbrev body : Mem → ℕ → Mem
  body f q = put_bytes (make_room bound f q (length word) (pos (length r) -ℤ pos (length word))) q r

  replace_loop-stop :
      (fuel : ℕ) (f : Mem) (p : ℕ) (s : Bytes)
      → c_string bound f p ≡ s
      → strstr s word ≡ none
      → loop (suc fuel) f p ≡ f
  unfolding replace_loop
  replace_loop-stop fuel f p s e absent = ground arith

  replace_loop-go :
      (fuel : ℕ) (f : Mem) (p k : ℕ) (s : Bytes)
      → c_string bound f p ≡ s
      → strstr s word ≡ some k
      → loop (suc fuel) f p ≡ loop fuel (body f (p + k)) (p + k + length r)
  unfolding replace_loop
  replace_loop-go fuel f p k s e found = ground arith

  -- One round: the word at `q` has become `r`, and the rest of the text stands behind it.
  record IsRound (f g : Mem) (q : ℕ) (t : Bytes) : Type 0 where
    written : Reads g q r
    rest : Holds g (q + length r) (drop (length word) t)
    below : (i : ℕ) → i < q → g i ≡ f i
    above : (i : ℕ) → q + length t ≤ i → q + length r + (length t - length word) < i → g i ≡ f i

  body_lem :
      (f : Mem) (q : ℕ) (t : Bytes)
      → Holds f q t
      → length word ≤ length t
      → length t + 1 < bound
      → IsRound f (body f q) q t
  body_lem f q t h fits room =
      let made = make_room_lem bound f q (length word) t h fits room (omega arith) (length r) in
      let f1 = make_room bound f q (length word) (pos (length r) -ℤ pos (length word)) in
      record {
        written = Reads-put_bytes r f1 q nonul;
        rest =
            Holds-move (drop (length word) t) f1 (put_bytes f1 q r) (q + length r) (q + length r)
              (λ i le. put_bytes-other r f1 q (q + length r + i) (inr (omega arith))) made.tail;
        below = λ i lt. put_bytes-other r f1 q i (inl lt) ∙ made.below i lt;
        above = λ i a b. put_bytes-other r f1 q i (inr (omega arith)) ∙ made.above i a b;
      }

  IsReplaced-round :
      (f f1 g : Mem) (p k : ℕ) (s : Bytes)
      → Holds f p s
      → Found x m r s k
      → IsRound f f1 (p + k) (drop k s)
      → IsReplaced f1 g (p + k + length r) word r (drop (suc (k + length m)) s)
      → IsReplaced f g p word r s
  IsReplaced-round f f1 g p k s h found round later =
      let rest = drop (suc (k + length m)) s in
      let size_rest = length-drop (suc (k + length m)) s in
      let size_tail = length-drop k s in
      let size_head = length-take k s in
      let fits = found.room in
      let size =
        ap length found.substituted
        ∙ length-append (take k s) (r ++ substitute word r 0 rest)
        ∙ ap (◌+◌ (length (take k s))) (length-append r (substitute word r 0 rest)) in
      record {
        holds = rw found.substituted (
            Reads-append (take k s) (r ++ substitute word r 0 rest) g p
              (Reads-same (take k s) f g p
                (λ i lt. later.below i (omega arith) ∙ round.below i (omega arith))
                (Reads-take k f p s h))
              (let e : p + length (take k s) ≡ p + k = omega arith in
                rw e (
                  Reads-append r (substitute word r 0 rest) g (p + k)
                    (Reads-same r f1 g (p + k) (λ i lt. later.below i lt) round.written)
                    later.holds)));
        below = λ i lt. later.below i (omega arith) ∙ round.below i (omega arith);
        above = λ i a b. elim (dec_le (length word) (length r)) [
          | yes longer ↦
              let grown = substitute_grows x m r rest longer in
              later.above i (omega arith) (omega arith) ∙ round.above i (omega arith) (omega arith)
          | no shorter ↦
              later.above i (omega arith) (omega arith) ∙ round.above i (omega arith) (omega arith)
        ];
      }

  drop-word : (k : ℕ) (s : Bytes) → drop (length word) (drop k s) ≡ drop (suc (k + length m)) s
  drop-word k s = rw (drop-drop (length word) k s, add-suc)

  Fits-rest : (s : Bytes) (k : ℕ) → Found x m r s k → Fits s → Fits (drop (suc (k + length m)) s)
  Fits-rest s k found fits =
      let size = length-drop (suc (k + length m)) s in
      omega (
        arith,
        rw found.counted at fits,
        mul-suc (length r) (occurrences word 0 (drop (suc (k + length m)) s)),
      )

  -- With a round for each occurrence and one more, the loop replaces them all.
  pub replace_loop_lem :
      (fuel : ℕ) (f : Mem) (p : ℕ) (s : Bytes)
      → Holds f p s
      → Fits s
      → occurrences word 0 s < fuel
      → IsReplaced f (loop fuel f p) p word r s
  replace_loop_lem zero f p s h fits lt = absurd (omega arith)
  replace_loop_lem (suc fuel) f p s h fits lt = elim (Option-cases (strstr s word)) [
    | inl absent ↦
        let (same, zeros) = strstr-none x m r s absent in
        rw (replace_loop-stop fuel f p s (c_string-Holds bound f p s h (omega arith)) absent)
          (record { holds = rw same h; below = λ i lt. refl; above = λ i a b. refl })
    | inr (k, at) ↦
        let found = strstr-Found x m r s k at in
        let size = length-drop k s in
        let room = found.room in
        let round =
          body_lem f (p + k) (drop k s) (Holds-drop k f p s h (omega arith)) (omega arith)
            (omega arith) in
        rw (replace_loop-go fuel f p k s (c_string-Holds bound f p s h (omega arith)) at) (
          IsReplaced-round f (body f (p + k)) _ p k s h found round (
            replace_loop_lem fuel (body f (p + k)) (p + k + length r) (drop (suc (k + length m)) s)
              (rw drop-word at round.rest) (Fits-rest s k found fits)
              (omega (arith, found.counted))))
  ]
