-- ===== src/Replace.antt =====
-- src/native/unix/native/replace.c: `replace` copies a template into a caller's buffer and replaces
-- every occurrence of a word in place. Memory is a function from addresses, counted from `new`, to
-- bytes, so that a write outside the buffer shows. An `int` is an integer: the lengths of the
-- program's paths are far below 2^31.
pub mod Memory
pub mod Reads
pub mod Moves
pub mod Substitution
pub mod Result
pub mod Contract
pub mod Tests
use boundary_event_sdk.Prelude.{
  ℕ, zero, suc, ◌+◌, ◌-◌, ◌*◌, Option, none, some, List, [], ◌∷◌, Bytes, length, drop, ℤ, pos,
  negsuc, ◌+ℤ◌, ◌-ℤ◌, ◌*ℤ◌, ltb_ℤ, ltb, leb, if◌then◌else◌, starts_with, not, Bool, true, false,
}
use boundary_event_sdk.Text.{strstr}
use boundary_event_sdk.Replace.Memory.{Mem, update, c_string, put_bytes, strcpy}

-- `for (x = strlen(tmp) + shift; x > shift; x--) tmp[x] = tmp[x - shift];` with `n` rounds left
pub move_right : Mem → (tmp shift n : ℕ) → Mem
move_right f tmp shift zero = f
move_right f tmp shift (suc n) =
    move_right (update f (tmp + (shift + suc n)) (f (tmp + suc n))) tmp shift n

-- `for (x = mlen; x < strlen(tmp) - shift; x++) tmp[x + shift] = tmp[x];` with `d` for `-shift`. The
-- length is read again in every round; `fuel` bounds the rounds.
pub move_left : (bound : ℕ) → Mem → (tmp d : ℕ) → (fuel x : ℕ) → Mem
move_left bound f tmp d zero x = f
move_left bound f tmp d (suc fuel) x = elim (ltb x (length (c_string bound f tmp) + d)) [
  | true ↦ move_left bound (update f (tmp + (x - d)) (f (tmp + x))) tmp d fuel (x + 1)
  | false ↦ f
]

-- The body of the last loop before `tmp += rlen`: shift the tail, then `strncpy(tmp, rpl, rlen)`.
pub make_room : (bound : ℕ) → Mem → (tmp mlen : ℕ) → (shift : ℤ) → Mem
unfolding move_right move_left
make_room bound f tmp mlen (pos zero) = f
make_room bound f tmp mlen (pos (suc k)) = move_right f tmp (suc k) (length (c_string bound f tmp))
make_room bound f tmp mlen (negsuc k) = move_left bound f tmp (suc k) bound mlen

-- `while ((tmp = strstr(tmp, mch)) != NULL) { … }` over memory
pub replace_loop : (bound : ℕ) (mch rpl : Bytes) (shift : ℤ) → (fuel : ℕ) → Mem → (tmp : ℕ) → Mem
unfolding make_room
replace_loop bound mch rpl shift zero f tmp = f
replace_loop bound mch rpl shift (suc fuel) f tmp = elim (strstr (c_string bound f tmp) mch) [
  | none ↦ f
  | some k ↦
      replace_loop bound mch rpl shift fuel
        (put_bytes (make_room bound f (tmp + k) (length mch) shift) (tmp + k) rpl)
        (tmp + k + length rpl)
]

-- The loop that counts how many times `mch` appears in `old`.
pub count_loop : (mch : Bytes) → (fuel : ℕ) → Bytes → ℕ
count_loop mch zero tmp = 0
count_loop mch (suc fuel) tmp = elim (strstr tmp mch) [
  | none ↦ 0
  | some k ↦ suc (count_loop mch fuel (drop (k + length mch) tmp))
]

-- "simply copy": `old` fits with its NUL, or the size that is needed is returned.
pub copy_only : Mem → ℤ → Bytes → ℤ × Mem
copy_only f len old =
    if not (ltb_ℤ (pos (length old)) len)
    then (pos (length old) +ℤ pos 1, f)
    else (pos 0, strcpy f old)

-- The part of `replace` after the test for an empty `mch`.
pub substitute_into : Mem → ℤ → (old mch rpl : Bytes) → ℤ × Mem
unfolding replace_loop count_loop copy_only
substitute_into f len old mch rpl =
    let count = count_loop mch (suc (length old)) old in
    let shift = pos (length rpl) -ℤ pos (length mch) in
    let nlen = pos (length old) +ℤ shift *ℤ pos count in
    let bound = suc (suc (length old + length rpl * count)) in
    if leb count 0
    then copy_only f len old
    else if not (ltb_ℤ nlen len)
    then (nlen +ℤ pos 1, f)
    else (pos 0, replace_loop bound mch rpl shift (suc count) (strcpy f old) 0)

pub or_empty : Option Bytes → Bytes
or_empty none = []
or_empty (some s) = s

-- `mch` is `NULL` or empty: copy; `rpl` is `NULL`: an empty string.
pub replace_string : Mem → ℤ → Bytes → (mch rpl : Option Bytes) → ℤ × Mem
unfolding substitute_into or_empty
replace_string f len old none rpl = copy_only f len old
replace_string f len old (some []) rpl = copy_only f len old
replace_string f len old (some (c ∷ mch)) rpl = substitute_into f len old (c ∷ mch) (or_empty rpl)

pub replace_checked : Mem → ℤ → (old mch rpl : Option Bytes) → ℤ × Mem
unfolding replace_string
replace_checked f len none mch rpl = (negsuc 2, f)
replace_checked f len (some old) mch rpl = replace_string f len old mch rpl

-- `int replace(char *new, int len, char *old, char *mch, char *rpl)`; `true` says that `new` is
-- `NULL`.
unfoldable pub replace : Bool → Mem → ℤ → (old mch rpl : Option Bytes) → ℤ × Mem
unfolding replace_checked
replace true f len old mch rpl = (negsuc 0, f)
replace false f len old mch rpl =
    if ltb_ℤ len (pos 0) then (negsuc 1, f) else replace_checked f len old mch rpl
