-- ===== src/Procrun/Memory/Fill.antt =====
-- `AplFillMemory` and `AplZeroMemory` against a description of what they store.
use mathlib.Core.Path.{ap, sym, fun_ext}
use boundary_event_sdk.Prelude.{
  ℕ, zero, suc, ◌+◌, ◌-◌, ◌*◌, ◌/◌, ◌%◌, ◌<◌, ◌≤◌, ◌≡◌, refl, ◌∙◌, Bool, ◌&&◌, true, false, if_elim,
  ◌==◌, leb, ltb, if◌then◌else◌, arith, ==_iff,
}
use boundary_event_sdk.Replace.Memory.{Mem, update}
use boundary_event_sdk.Procrun.Memory.{
  byte_of, store, fill_bytes, fill_words, spread, fill_aligned, fill_from, fill_memory, zero_memory,
  rounds, wsize, low,
}

-- The `n` bytes at `d` hold `c`, and no other byte changes.
unfoldable pub memset : Mem → (d n c : ℕ) → Mem
memset f d n c i = if leb d i && ltb i (d + n) then c else f i

memset_none : (f : Mem) (d c : ℕ) → memset f d 0 c ≡ f
unfolding memset
memset_none f d c = fun_ext (λ i. ground arith)

-- A run that starts within the run before it, or right behind it, and ends behind it.
memset_on :
    (f : Mem) (d a b n k c : ℕ)
    → k ≤ a
    → a ≤ k + b
    → n ≡ k + b
    → memset (memset f d a c) (d + k) b c ≡ memset f d n c
unfolding memset
memset_on f d a b n k c h g e = fun_ext (λ i. ground arith)

-- A run within the run before it changes nothing.
memset_within :
    (f : Mem) (d a b k c : ℕ) → k + b ≤ a → memset (memset f d a c) (d + k) b c ≡ memset f d a c
unfolding memset
memset_within f d a b k c h = fun_ext (λ i. ground arith)

memset_last : (f : Mem) (d n c : ℕ) → memset (update f (d + n) c) d n c ≡ memset f d (suc n) c
unfolding memset update
memset_last f d n c = fun_ext (λ i. ground arith)

memset_first : (f : Mem) (d c : ℕ) → update f d c ≡ memset f d 1 c
unfolding memset update
memset_first f d c = fun_ext (λ i. ground arith)

-- The bytes of a word that holds `c` throughout.
abbrev AllBytes : (n w c : ℕ) → Type 0
AllBytes n w c = (k : ℕ) → k < n → byte_of w k ≡ c

store-memset : (n : ℕ) (f : Mem) (p w c : ℕ) → AllBytes n w c → store n f p w ≡ memset f p n c
unfolding store
store-memset zero f p w c h = sym (memset_none f p c)
store-memset (suc n) f p w c h =
    rw
      (
        store-memset n (update f (p + n) (byte_of w n)) p w c (λ k lt. h k (omega arith)),
        h n (omega arith),
      )
      (memset_last f p n c)

fill_bytes-memset : (t : ℕ) (f : Mem) (d c : ℕ) → fill_bytes t f d c ≡ memset f d t c
unfolding fill_bytes
fill_bytes-memset zero f d c = sym (memset_none f d c)
fill_bytes-memset (suc t) f d c =
    rw (fill_bytes-memset t (update f d c) (d + 1) c, memset_first f d c)
      (memset_on f d 1 t (suc t) 1 c (omega arith) (omega arith) (omega arith))

-- Stores of `n` bytes at every word end `n - wsize` bytes behind the words.
fill_words-memset :
    (n t : ℕ) (f : Mem) (d w c : ℕ)
    → AllBytes n w c
    → wsize ≤ n
    → n ≤ 2 * wsize
    → 0 < t
    → fill_words n t f d w ≡ memset f d (wsize * t + (n - wsize)) c
unfolding fill_words
fill_words-memset n zero f d w c h lo hi gt = absurd (omega arith)
fill_words-memset n (suc zero) f d w c h lo hi gt =
    store-memset n f d w c h ∙ ap (λ k. memset f d k c) (omega arith)
fill_words-memset n (suc (suc t)) f d w c h lo hi gt =
    rw
      (
        fill_words-memset n (suc t) (store n f d w) (d + wsize) w c h lo hi (omega arith),
        store-memset n f d w c h,
      )
      (memset_on f d n (wsize * suc t + (n - wsize)) (wsize * suc (suc t) + (n - wsize)) wsize c lo
        (omega arith) (omega arith))

-- Every value of a small range, checked by evaluation.
all_below : ℕ → (ℕ → Bool) → Bool
all_below zero p = true
all_below (suc n) p = p n && all_below n p

all_below_sound : (n : ℕ) (p : ℕ → Bool) → all_below n p ≡ true → (x : ℕ) → x < n → p x ≡ true
unfolding all_below
all_below_sound zero p h x lt = absurd (omega arith)
all_below_sound (suc n) p h x lt = ground (arith, all_below_sound n p (ground arith) x)

abbrev word_bytes : Bool → ℕ
word_bytes wide = if wide then 8 else wsize

spread_table :
    (wide : Bool)
    → all_below 256 (λ c. all_below (word_bytes wide) (λ k. byte_of (spread wide c) k == c)) ≡ true
unfolding all_below byte_of spread
spread_table true = refl
spread_table false = refl

spread-AllBytes : (wide : Bool) (c : ℕ) → c < 256 → AllBytes (word_bytes wide) (spread wide c) c
spread-AllBytes wide c h k lt = (==_iff (byte_of (spread wide c) k) c).0 (
    all_below_sound (word_bytes wide) (λ k. byte_of (spread wide c) k == c)
      (all_below_sound 256 _ (spread_table wide) c h) k lt)

-- How far the words and the trailing bytes reach, from an aligned address on.
abbrev reach : (n length : ℕ) → ℕ
reach n length = wsize * (length / wsize) + (if n == wsize then low length else wsize)

words_rounds : (len : ℕ) → wsize ≤ len → (rounds (len / wsize) ≡ len / wsize) × (0 < len / wsize)
unfolding rounds
words_rounds len le = ground arith

fill_aligned-memset :
    (wide : Bool) (f : Mem) (d len w c : ℕ)
    → AllBytes (word_bytes wide) w c
    → wsize ≤ len
    → fill_aligned (word_bytes wide) f d len c w ≡ memset f d (reach (word_bytes wide) len) c
unfolding fill_aligned
fill_aligned-memset true f d len w c h le =
    rw
      (
        (words_rounds len le).0,
        fill_words-memset 8 (len / wsize) f d w c h (omega arith) (omega arith)
            (words_rounds len le).1,
        fill_bytes-memset (low len) _ (d + wsize * (len / wsize)) c,
      )
      (memset_within f d (wsize * (len / wsize) + 4) (low len) (wsize * (len / wsize)) c
        (omega arith))
fill_aligned-memset false f d len w c h le =
    rw
      (
        (words_rounds len le).0,
        fill_words-memset wsize (len / wsize) f d w c h (omega arith) (omega arith)
            (words_rounds len le).1,
        fill_bytes-memset (low len) _ (d + wsize * (len / wsize)) c,
      )
      (memset_on f d (wsize * (len / wsize) + 0) (low len) (reach wsize len) (wsize * (len / wsize))
        c (omega arith) (omega arith) (omega arith))

-- How far behind the last byte the words of eight bytes reach.
unfoldable pub over : (wide : Bool) (d len : ℕ) → ℕ
over wide d len = if wide && leb (3 * wsize) len then wsize - (d + len) % wsize else 0

skewed_fill :
    (wide : Bool) (f : Mem) (d len w c r t : ℕ)
    → AllBytes (word_bytes wide) w c
    → (r ≡ t) × (wsize + t ≤ len)
    → fill_aligned (word_bytes wide) (fill_bytes r f d c) (d + t) (len - t) c w
      ≡ memset f d (t + reach (word_bytes wide) (len - t)) c
skewed_fill wide f d len w c r t h (e, le) =
    rw
      (
        e,
        fill_bytes-memset t f d c,
        fill_aligned-memset wide _ (d + t) (len - t) w c h (omega arith),
      )
      (memset_on f d t (reach (word_bytes wide) (len - t)) _ t c (omega arith) (omega arith)
        (omega arith))

reach_aligned :
    (wide : Bool) (d len t : ℕ)
    → 3 * wsize ≤ len
    → t < wsize
    → (d + t) % wsize ≡ 0
    → t + reach (word_bytes wide) (len - t) ≡ len + over wide d len
unfolding over
reach_aligned true d len t h lt e = ground arith
reach_aligned false d len t h lt e = ground arith

reach_even :
    (wide : Bool) (d len : ℕ)
    → ltb len (3 * wsize) ≡ false
    → (low d == 0) ≡ true
    → reach (word_bytes wide) len ≡ len + over wide d len
unfolding over
reach_even true d len long even = ground arith
reach_even false d len long even = ground arith

rounds_skew :
    (d len : ℕ)
    → ltb len (3 * wsize) ≡ false
    → (low d == 0) ≡ false
    → (rounds (wsize - low d) ≡ wsize - low d) × (wsize + (wsize - low d) ≤ len)
unfolding rounds
rounds_skew d len long skew = ground arith

over_short : (wide : Bool) (d len : ℕ) → ltb len (3 * wsize) ≡ true → len ≡ len + over wide d len
unfolding over
over_short wide d len h = ground arith

fill_from-memset :
    (wide : Bool) (f : Mem) (d len w c : ℕ)
    → AllBytes (word_bytes wide) w c
    → fill_from (word_bytes wide) f d len c w ≡ memset f d (len + over wide d len) c
unfolding fill_from
fill_from-memset wide f d len w c h =
    if_elim (λ g. g ≡ memset f d (len + over wide d len) c) (ltb len (3 * wsize)) _ _
      (λ short.
        fill_bytes-memset len f d c ∙ ap (λ n. memset f d n c) (over_short wide d len short))
      (λ long.
        if_elim (λ g. g ≡ memset f d (len + over wide d len) c) (low d == 0) _ _
          (λ even.
            fill_aligned-memset wide f d len w c h (ground arith)
            ∙ ap (λ n. memset f d n c) (reach_even wide d len long even))
          (λ skew.
            skewed_fill wide f d len w c (rounds (wsize - low d)) (wsize - low d) h
              (rounds_skew d len long skew)
            ∙ ap (λ n. memset f d n c)
                (reach_aligned wide d len (wsize - low d) (ground arith) (ground arith)
                  (omega arith))))

-- `AplFillMemory` of a byte stores it in the `len` bytes at `d`. Where `WIN64` is defined and `len` is
-- 12 or more, it is stored in the bytes behind them as well, up to the next multiple of four: one to
-- four bytes that are not the caller's. No other byte changes.
pub fill_memory-memset :
    (wide : Bool) (f : Mem) (d len c : ℕ)
    → c < 256
    → fill_memory wide f d len c ≡ memset f d (len + over wide d len) c
unfolding fill_memory
fill_memory-memset wide f d len c h =
    fill_from-memset wide f d len (spread wide c) c (spread-AllBytes wide c h)

zero-AllBytes : AllBytes wsize 0 0
unfolding all_below byte_of
zero-AllBytes k lt =
    (==_iff (byte_of 0 k) 0).0 (all_below_sound wsize (λ k. byte_of 0 k == 0) refl k lt)

-- `AplZeroMemory` clears the `len` bytes at `d` and changes no other.
pub zero_memory-memset : (f : Mem) (d len : ℕ) → zero_memory f d len ≡ memset f d len 0
unfolding zero_memory
zero_memory-memset f d len =
    fill_from-memset false f d len 0 0 zero-AllBytes
    ∙ ap (λ n. memset f d n 0) (unfold over in omega arith)
