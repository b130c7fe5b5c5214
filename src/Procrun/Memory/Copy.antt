-- ===== src/Procrun/Memory/Copy.antt =====
-- `AplCopyMemory` against a description of `memmove`.
use mathlib.Core.Path.{sym, fun_ext}
use boundary_event_sdk.Prelude.{
  ℕ, zero, suc, ◌+◌, ◌-◌, ◌*◌, ◌/◌, ◌<◌, ◌≤◌, ◌≡◌, ◌∙◌, ◌&&◌, ◌||◌, true, false, if_elim, ◌==◌, leb,
  ltb, if◌then◌else◌, arith,
}
use boundary_event_sdk.Replace.Memory.{Mem, update}
use boundary_event_sdk.Procrun.Memory.{
  bytes_up, bytes_down, words_up, words_down, copy_word, rest_up, rest_down, copy_forward,
  copy_backward, copy_memory, align_up, align_down, rounds, wsize, low,
}

-- The `n` bytes at `d` are what the `n` bytes at `s` were, and no other byte changes.
unfoldable pub memmove : Mem → (d s n : ℕ) → Mem
memmove f d s n i = if leb d i && ltb i (d + n) then f (s + (i - d)) else f i

memmove_none : (f : Mem) (d s : ℕ) → memmove f d s 0 ≡ f
unfolding memmove
memmove_none f d s = fun_ext (λ i. ground arith)

memmove_one : (f : Mem) (d s : ℕ) → update f d (f s) ≡ memmove f d s 1
unfolding memmove update
memmove_one f d s = fun_ext (λ i. ground arith)

memmove_word : (f : Mem) (d s : ℕ) → copy_word f d s ≡ memmove f d s wsize
unfolding memmove copy_word update
memmove_word f d s = fun_ext (λ i. ground arith)

memmove_up :
    (f : Mem) (d s a b n : ℕ)
    → d < s
    → n ≡ a + b
    → memmove (memmove f d s a) (d + a) (s + a) b ≡ memmove f d s n
unfolding memmove
memmove_up f d s a b n h e = fun_ext (λ i. ground arith)

-- `d` and `s` are behind the last byte, as in the loops that go down.
memmove_down :
    (f : Mem) (d s a b n : ℕ)
    → s < d
    → n ≡ a + b
    → n ≤ s
    → memmove (memmove f (d - a) (s - a) a) (d - a - b) (s - a - b) b ≡ memmove f (d - n) (s - n) n
unfolding memmove
memmove_down f d s a b n h e le = fun_ext (λ i. ground arith)

bytes_up-memmove : (t : ℕ) (f : Mem) (d s : ℕ) → d < s → bytes_up t f d s ≡ memmove f d s t
unfolding bytes_up
bytes_up-memmove zero f d s h = sym (memmove_none f d s)
bytes_up-memmove (suc t) f d s h =
    rw (bytes_up-memmove t (update f d (f s)) (d + 1) (s + 1) (omega arith), memmove_one f d s)
      (memmove_up f d s 1 t (suc t) h (omega arith))

words_up-memmove :
    (t : ℕ) (f : Mem) (d s : ℕ) → d < s → words_up t f d s ≡ memmove f d s (wsize * t)
unfolding words_up
words_up-memmove zero f d s h = sym (memmove_none f d s)
words_up-memmove (suc t) f d s h =
    rw
      (
        words_up-memmove t (copy_word f d s) (d + wsize) (s + wsize) (omega arith),
        memmove_word f d s,
      )
      (memmove_up f d s wsize (wsize * t) (wsize * suc t) h (omega arith))

bytes_down-memmove :
    (t : ℕ) (f : Mem) (d s : ℕ) → s < d → t ≤ s → bytes_down t f d s ≡ memmove f (d - t) (s - t) t
unfolding bytes_down
bytes_down-memmove zero f d s h le = sym (memmove_none f _ _)
bytes_down-memmove (suc t) f d s h le =
    rw
      (
        bytes_down-memmove t (update f (d - 1) (f (s - 1))) (d - 1) (s - 1) (omega arith)
            (omega arith),
        memmove_one f (d - 1) (s - 1),
      )
      (memmove_down f d s 1 t (suc t) h (omega arith) le)

words_down-memmove :
    (t : ℕ) (f : Mem) (d s : ℕ)
    → s < d
    → wsize * t ≤ s
    → words_down t f d s ≡ memmove f (d - wsize * t) (s - wsize * t) (wsize * t)
unfolding words_down
words_down-memmove zero f d s h le = sym (memmove_none f _ _)
words_down-memmove (suc t) f d s h le =
    rw
      (
        words_down-memmove t (copy_word f (d - wsize) (s - wsize)) (d - wsize) (s - wsize)
            (omega arith) (omega arith),
        memmove_word f (d - wsize) (s - wsize),
      )
      (memmove_down f d s wsize (wsize * t) (wsize * suc t) h (omega arith) le)

rest_up-memmove : (f : Mem) (d s n : ℕ) → d < s → rest_up f d s n ≡ memmove f d s n
unfolding rest_up
rest_up-memmove f d s n h =
    rw
      (
        words_up-memmove (n / wsize) f d s h,
        bytes_up-memmove (low n) _ (d + wsize * (n / wsize)) (s + wsize * (n / wsize))
            (omega arith),
      )
      (memmove_up f d s (wsize * (n / wsize)) (low n) n h (omega arith))

rest_down-memmove :
    (f : Mem) (d s n : ℕ) → s < d → n ≤ s → rest_down f d s n ≡ memmove f (d - n) (s - n) n
unfolding rest_down
rest_down-memmove f d s n h le =
    rw
      (
        words_down-memmove (n / wsize) f d s h (omega arith),
        bytes_down-memmove (low n) _ (d - wsize * (n / wsize)) (s - wsize * (n / wsize))
            (omega arith) (omega arith),
      )
      (memmove_down f d s (wsize * (n / wsize)) (low n) n h (omega arith) le)

-- The bytes before the words are some, and not too many.
rounds-align_up :
    (d s n : ℕ) → 0 < n → (rounds (align_up d s n) ≡ align_up d s n) × (align_up d s n ≤ n)
unfolding rounds align_up
rounds-align_up d s n h = ground arith

rounds-align_down :
    (d s n : ℕ)
    → 0 < n
    → (low s == 0 && low d == 0) ≡ false
    → (rounds (align_down d s n) ≡ align_down d s n) × (align_down d s n ≤ n)
unfolding rounds align_down
rounds-align_down d s n h skew = ground arith

skewed_up :
    (f : Mem) (d s n r t : ℕ)
    → d < s
    → (r ≡ t) × (t ≤ n)
    → rest_up (bytes_up r f d s) (d + r) (s + r) (n - t) ≡ memmove f d s n
skewed_up f d s n r t h (e, le) =
    rw (e, bytes_up-memmove t f d s h, rest_up-memmove _ (d + t) (s + t) (n - t) (omega arith))
      (memmove_up f d s t (n - t) n h (omega arith))

skewed_down :
    (f : Mem) (d s n r t : ℕ)
    → s < d
    → n ≤ s
    → (r ≡ t) × (t ≤ n)
    → rest_down (bytes_down r f d s) (d - r) (s - r) (n - t) ≡ memmove f (d - n) (s - n) n
skewed_down f d s n r t h fits (e, le) =
    rw
      (
        e,
        bytes_down-memmove t f d s h (omega arith),
        rest_down-memmove _ (d - t) (s - t) (n - t) (omega arith) (omega arith),
      )
      (memmove_down f d s t (n - t) n h (omega arith) fits)

copy_forward-memmove :
    (f : Mem) (d s n : ℕ) → 0 < n → d < s → copy_forward f d s n ≡ memmove f d s n
unfolding copy_forward
copy_forward-memmove f d s n some_bytes h =
    if_elim (λ g. g ≡ memmove f d s n) (low s == 0 && low d == 0) _ _
      (λ _. rest_up-memmove f d s n h)
      (λ _.
        skewed_up f d s n (rounds (align_up d s n)) (align_up d s n) h
          (rounds-align_up d s n some_bytes))

copy_backward-memmove :
    (f : Mem) (d s n : ℕ)
    → 0 < n
    → s < d
    → n ≤ s
    → copy_backward f d s n ≡ memmove f (d - n) (s - n) n
unfolding copy_backward
copy_backward-memmove f d s n some_bytes h fits =
    if_elim (λ g. g ≡ memmove f (d - n) (s - n) n) (low s == 0 && low d == 0) _ _
      (λ _. rest_down-memmove f d s n h fits)
      (λ skew.
        skewed_down f d s n (rounds (align_down d s n)) (align_down d s n) h fits
          (rounds-align_down d s n some_bytes skew))

memmove_nothing : (f : Mem) (d s n : ℕ) → (n == 0 || d == s) ≡ true → f ≡ memmove f d s n
unfolding memmove
memmove_nothing f d s n h = fun_ext (λ i. ground arith)

memmove_back : (f : Mem) (d s n : ℕ) → memmove f (d + n - n) (s + n - n) n ≡ memmove f d s n
unfolding memmove
memmove_back f d s n = fun_ext (λ i. ground arith)

-- Wherever the two regions lie and overlap, and however they are aligned, `AplCopyMemory` leaves in
-- the `n` bytes at `d` what the `n` bytes at `s` held before, and changes no other byte.
pub copy_memory-memmove : (f : Mem) (d s n : ℕ) → copy_memory f d s n ≡ memmove f d s n
unfolding copy_memory
copy_memory-memmove f d s n =
    if_elim (λ g. g ≡ memmove f d s n) (n == 0 || d == s) _ _ (memmove_nothing f d s n)
      (λ some_bytes.
        if_elim (λ g. g ≡ memmove f d s n) (ltb d s) _ _
          (λ lt. copy_forward-memmove f d s n (ground arith) (ground arith))
          (λ ge.
            copy_backward-memmove f (d + n) (s + n) n (ground arith) (ground arith) (omega arith)
            ∙ memmove_back f d s n))
