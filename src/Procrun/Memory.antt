-- ===== src/Procrun/Memory.antt =====
-- `AplFillMemory`, `AplZeroMemory` and `AplCopyMemory` of src/native/windows/src/mclib.c, over the
-- bytes of memory by address. A `word` is a `UINT` of four bytes, the lowest first, and an object does
-- not wrap round the end of the address space. `wide` says that `WIN64` is defined.
pub mod Copy
pub mod Fill
pub mod Tests
use Prim.Native.Nat.{bit_or}
use boundary_event_sdk.Prelude.{
  ℕ, zero, suc, ◌+◌, ◌-◌, ◌*◌, ◌/◌, ◌%◌, ◌^◌, Bool, true, false, not, ◌&&◌, ◌||◌, ltb, leb, ◌==◌,
  if◌then◌else◌,
}
use boundary_event_sdk.Replace.Memory.{Mem, update}

-- `sizeof(UINT)`, and `x & wmask`, which keeps the two low bits
abbrev pub wsize : ℕ
wsize = 4

abbrev pub low : ℕ → ℕ
low x = x % wsize

-- The rounds of `do { ... } while (--t)`, whose `SIZE_T` wraps when it starts at zero.
unfoldable pub rounds : ℕ → ℕ
rounds t = if t == 0 then 2 ^ 64 else t

-- The byte `k` of the word `c`
unfoldable pub byte_of : (c k : ℕ) → ℕ
byte_of c k = c / 256 ^ k % 256

-- `*(UINT *)p = c`, and the same for a store of `n` bytes
unfoldable pub store : (n : ℕ) → Mem → (p c : ℕ) → Mem
unfolding update byte_of
store zero f p c = f
store (suc n) f p c = store n (update f (p + n) (byte_of c n)) p c

-- `t` times `*dst++ = Fill`
unfoldable pub fill_bytes : (t : ℕ) → Mem → (dst fill : ℕ) → Mem
unfolding update
fill_bytes zero f dst fill = f
fill_bytes (suc t) f dst fill = fill_bytes t (update f dst fill) (dst + 1) fill

-- `t` times a store of `n` bytes, the pointer going on by a word
unfoldable pub fill_words : (n t : ℕ) → Mem → (dst c : ℕ) → Mem
unfolding store
fill_words n zero f dst c = f
fill_words n (suc t) f dst c = fill_words n t (store n f dst c) (dst + wsize) c

-- The word of `Fill`s.
unfoldable pub spread : (wide : Bool) → ℕ → ℕ
spread wide fill =
    if fill == 0
    then 0
    else let two = bit_or (fill * 2 ^ 8) fill in
      let four = bit_or (two * 2 ^ 16) two in if wide then bit_or (four * 2 ^ 32) four else four

-- From the words on, at an aligned `dst`.
unfoldable pub fill_aligned : (n : ℕ) → Mem → (dst length fill c : ℕ) → Mem
unfolding fill_words fill_bytes rounds
fill_aligned n f dst length fill c =
    let g = fill_words n (rounds (length / wsize)) f dst c in
    fill_bytes (low length) g (dst + wsize * rounds (length / wsize)) fill

unfoldable pub fill_from : (n : ℕ) → Mem → (dst length fill c : ℕ) → Mem
unfolding fill_aligned fill_bytes rounds
fill_from n f dst length fill c =
    if ltb length (3 * wsize)
    then fill_bytes length f dst fill
    else if low dst == 0
    then fill_aligned n f dst length fill c
    else let t = wsize - low dst in
      fill_aligned n (fill_bytes (rounds t) f dst fill) (dst + t) (length - t) fill c

-- `AplFillMemory(Destination, Length, Fill)`
unfoldable pub fill_memory : (wide : Bool) → Mem → (destination length fill : ℕ) → Mem
unfolding fill_from spread
fill_memory wide f destination length fill =
    fill_from (if wide then 8 else wsize) f destination length fill (spread wide fill)

-- `AplZeroMemory(Destination, Length)`
unfoldable pub zero_memory : Mem → (destination length : ℕ) → Mem
unfolding fill_from
zero_memory f destination length = fill_from wsize f destination length 0 0

-- `*(word *)dst = *(word *)src`
unfoldable pub copy_word : Mem → (dst src : ℕ) → Mem
unfolding update
copy_word f dst src =
    update (update (update (update f dst (f src)) (dst + 1) (f (src + 1))) (dst + 2) (f (src + 2)))
      (dst + 3) (f (src + 3))

-- `TLOOP(*dst++ = *src++)`
unfoldable pub bytes_up : (t : ℕ) → Mem → (dst src : ℕ) → Mem
unfolding update
bytes_up zero f dst src = f
bytes_up (suc t) f dst src = bytes_up t (update f dst (f src)) (dst + 1) (src + 1)

-- `TLOOP(*(word *)dst = *(word *)src; src += wsize; dst += wsize)`
unfoldable pub words_up : (t : ℕ) → Mem → (dst src : ℕ) → Mem
unfolding copy_word
words_up zero f dst src = f
words_up (suc t) f dst src = words_up t (copy_word f dst src) (dst + wsize) (src + wsize)

-- `TLOOP(*--dst = *--src)`
unfoldable pub bytes_down : (t : ℕ) → Mem → (dst src : ℕ) → Mem
unfolding update
bytes_down zero f dst src = f
bytes_down (suc t) f dst src = bytes_down t (update f (dst - 1) (f (src - 1))) (dst - 1) (src - 1)

-- `TLOOP(src -= wsize; dst -= wsize; *(word *)dst = *(word *)src)`
unfoldable pub words_down : (t : ℕ) → Mem → (dst src : ℕ) → Mem
unfolding copy_word
words_down zero f dst src = f
words_down (suc t) f dst src =
    words_down t (copy_word f (dst - wsize) (src - wsize)) (dst - wsize) (src - wsize)

-- The words and the trailing bytes, forward and backward
unfoldable pub rest_up : Mem → (dst src length : ℕ) → Mem
unfolding words_up bytes_up
rest_up f dst src length =
    let n = wsize * (length / wsize) in
    bytes_up (low length) (words_up (length / wsize) f dst src) (dst + n) (src + n)

unfoldable pub rest_down : Mem → (dst src length : ℕ) → Mem
unfolding words_down bytes_down
rest_down f dst src length =
    let n = wsize * (length / wsize) in
    bytes_down (low length) (words_down (length / wsize) f dst src) (dst - n) (src - n)

-- The bytes that are copied before the words, when a pointer is not aligned.
unfoldable pub align_up : (dst src length : ℕ) → ℕ
align_up dst src length =
    if not (low src == low dst) || ltb length wsize then length else wsize - low src

unfoldable pub align_down : (dst src length : ℕ) → ℕ
align_down dst src length = if not (low src == low dst) || leb length wsize then length else low src

unfoldable pub copy_forward : Mem → (dst src length : ℕ) → Mem
unfolding rest_up bytes_up align_up rounds
copy_forward f dst src length =
    if low src == 0 && low dst == 0
    then rest_up f dst src length
    else let t = align_up dst src length in
      rest_up (bytes_up (rounds t) f dst src) (dst + rounds t) (src + rounds t) (length - t)

-- `dst` and `src` are behind the last byte.
unfoldable pub copy_backward : Mem → (dst src length : ℕ) → Mem
unfolding rest_down bytes_down align_down rounds
copy_backward f dst src length =
    if low src == 0 && low dst == 0
    then rest_down f dst src length
    else let t = align_down dst src length in
      rest_down (bytes_down (rounds t) f dst src) (dst - rounds t) (src - rounds t) (length - t)

-- `AplCopyMemory(Destination, Source, Length)`
unfoldable pub copy_memory : Mem → (destination source length : ℕ) → Mem
unfolding copy_forward copy_backward
copy_memory f destination source length =
    if length == 0 || destination == source
    then f
    else if ltb destination source
    then copy_forward f destination source length
    else copy_backward f (destination + length) (source + length) length
