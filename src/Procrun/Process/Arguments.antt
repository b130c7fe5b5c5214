-- ===== src/Procrun/Process/Arguments.antt =====
-- The command line of a child: `__apxStrQuote` and `apxProcessSetCommandArgsW`.
use boundary_event_sdk.Prelude.{
  ℕ, ◌+◌, ◌≡◌, ◌≤◌, refl, Bool, true, false, not, ◌&&◌, ◌||◌, Option, none, some, List, [], ◌∷◌,
  ◌++◌, Bytes, length, ◌==◌, if◌then◌else◌, arith, append-nil, append_assoc, length-append, if_elim,
  Bool-cases, inl, inr,
}
use boundary_event_sdk.Home.Names.{Without}

abbrev pub tab : ℕ
tab = 9

-- Whether the string has a unit between words, and whether it has a quote
unfoldable pub has_blank : Bytes → Bool
has_blank [] = false
has_blank (c ∷ s) = let rest = has_blank s in (c == b' ') || ((c == tab) || rest)

unfoldable pub has_quote : Bytes → Bool
has_quote [] = false
has_quote (c ∷ s) = let rest = has_quote s in (c == b'"') || rest

-- What `__apxStrQuote` writes
unfoldable pub str_quote : Bytes → Bytes
unfolding has_blank has_quote
str_quote s = if has_blank s && not (has_quote s) then b'"' ∷ (s ++ (b'"' ∷ [])) else s

unfoldable pub join_args : List Bytes → Bytes
unfolding str_quote
join_args [] = []
join_args (a ∷ args) = b' ' ∷ (str_quote a ++ join_args args)

-- The units that are allocated, and the command line that is written there, before its NUL
unfoldable pub args_room : List Bytes → ℕ
args_room [] = 0
args_room (a ∷ args) = length a + 3 + args_room args

unfoldable pub set_command_args : (title : Bytes) (args : List Bytes) → ℕ × Bytes
unfolding join_args str_quote args_room
set_command_args title args = (length title + 3 + args_room args, str_quote title ++ join_args args)

pub length-str_quote : (s : Bytes) → length (str_quote s) ≤ length s + 2
unfolding str_quote
length-str_quote s =
    if_elim (λ (q : Bytes). length q ≤ length s + 2) (has_blank s && not (has_quote s)) _ _
      (λ _. rw (length-append) (omega arith)) (λ _. omega arith)

length-join_args : (args : List Bytes) → length (join_args args) ≤ args_room args
unfolding join_args args_room
length-join_args [] = omega arith
length-join_args (a ∷ args) =
    rw (length-append) (omega (arith, length-str_quote a, length-join_args args))

abbrev pub is_blank : ℕ → Bool
is_blank c = (c == b' ') || (c == tab)

abbrev pub put_first : Bytes → Option (List Bytes) → Option (List Bytes)
put_first word none = none
put_first word (some words) = some (word ∷ words)

-- How a program reads its command line: blanks, one or more, part words but between quotes. `inside` says that a word
-- has begun, and `word` is what it has so far; `marked` says that the unit before was a backslash or a quote. What
-- a quote means behind one of these is left open, `none`; elsewhere a backslash stands for itself.
abbrev pub split_from :
    (open_quote inside marked : Bool) (word : Bytes) → Bytes → Option (List Bytes)
split_from q inside marked word [] = some (if inside then word ∷ [] else [])
split_from true inside marked word (c ∷ s) =
    let closed = split_from false true true word s in
    let on = split_from true true (c == b'\\') (word ++ (c ∷ [])) s in
    if c == b'"' then (if marked then none else closed) else on
split_from false inside marked word (c ∷ s) =
    let opened = split_from true true true word s in
    let parted = split_from false false false [] s in
    let on = split_from false true (c == b'\\') (word ++ (c ∷ [])) s in
    if c == b'"'
    then (if marked then none else opened)
    else if is_blank c
    then (if inside then put_first word parted else parted)
    else on

-- Whether the last unit is a backslash, `marked` if there is none
abbrev pub ends_marked : (marked : Bool) → Bytes → Bool
ends_marked marked [] = marked
ends_marked marked (c ∷ s) = ends_marked (c == b'\\') s

split_from-quoted :
    (marked : Bool) (word s rest : Bytes)
    → Without b'"' s
    → ends_marked marked s ≡ false
    → split_from true true marked word (s ++ (b'"' ∷ rest))
      ≡ split_from false true true (word ++ s) rest
split_from-quoted marked word [] rest h m = rw (append-nil word, m) refl
split_from-quoted marked word (c ∷ s) rest h m =
    let on = split_from-quoted (c == b'\\') (word ++ (c ∷ [])) s rest h.1 m in
    ground (arith, h, on, append_assoc word (c ∷ []) s)

split_from-bare :
    (inside marked : Bool) (word : Bytes) (c : ℕ) (s rest : Bytes)
    → Without b'"' (c ∷ s)
    → has_blank (c ∷ s) ≡ false
    → split_from false inside marked word ((c ∷ s) ++ rest)
      ≡ split_from false true (ends_marked marked (c ∷ s)) (word ++ (c ∷ s)) rest
unfolding has_blank
split_from-bare inside marked word c [] rest h n = ground (arith, h, n)
split_from-bare inside marked word c (d ∷ s) rest h n =
    let none_left : has_blank (d ∷ s) ≡ false = ground (arith, n) in
    let on = split_from-bare true (c == b'\\') (word ++ (c ∷ [])) d s rest h.1 none_left in
    ground (arith, h, n, on, append_assoc word (c ∷ []) (d ∷ s))

pub Without-has_quote : (s : Bytes) → Without b'"' s → has_quote s ≡ false
unfolding has_quote
Without-has_quote [] h = refl
Without-has_quote (c ∷ s) h = ground (arith, h, Without-has_quote s h.1)

-- An argument that is not empty, has no quote, and does not end in a backslash if it has a blank
abbrev pub IsPlain : Bytes → Type 0
IsPlain [] = false ≡ true
IsPlain (c ∷ s) = Without b'"' (c ∷ s) × ((has_blank (c ∷ s) && ends_marked false (c ∷ s)) ≡ false)

pub split_from-str_quote :
    (s rest : Bytes)
    → IsPlain s
    → (m : Bool) × (split_from false false false [] (str_quote s ++ rest)
        ≡ split_from false true m s rest)
unfolding str_quote
split_from-str_quote [] rest h = absurd (ground (arith, h))
split_from-str_quote (c ∷ s) rest (h, e) = elim (Bool-cases (has_blank (c ∷ s))) [
  | inl blank ↦
      let ends : ends_marked true (c ∷ s) ≡ false = ground (arith, blank, e) in
      (
        true,
        rw (blank, Without-has_quote (c ∷ s) h, append_assoc)
            (split_from-quoted true [] (c ∷ s) rest h ends),
      )
  | inr bare ↦ (ends_marked false (c ∷ s), rw bare (split_from-bare false false [] c s rest h bare))
]

abbrev pub ArePlain : List Bytes → Type 0
ArePlain [] = Unit {0}
ArePlain (a ∷ args) = IsPlain a × ArePlain args

pub split_from-join_args :
    (m : Bool) (word : Bytes) (args : List Bytes)
    → ArePlain args
    → split_from false true m word (join_args args) ≡ some (word ∷ args)
unfolding join_args
split_from-join_args m word [] h = refl
split_from-join_args m word (a ∷ args) (p, h) =
    let (n, e) = split_from-str_quote a (join_args args) p in
    rw (e, split_from-join_args n a args h) refl

-- The command line that is made of a title and arguments fits what is allocated for it with its NUL, and a program
-- reads it as the title and the arguments, if none of them is empty, has a quote, or has a blank and ends in
-- a backslash.
pub set_command_args-split_from :
    (title : Bytes) (args : List Bytes)
    → IsPlain title
    → ArePlain args
    → (length ((set_command_args title args).1) + 1 ≤ (set_command_args title args).0)
      × (split_from false false false [] ((set_command_args title args).1) ≡ some (title ∷ args))
unfolding set_command_args
set_command_args-split_from title args h hs =
    let (n, e) = split_from-str_quote title (join_args args) h in
    (
      rw (length-append) (omega (arith, length-str_quote title, length-join_args args)),
      rw e (split_from-join_args n title args hs),
    )
