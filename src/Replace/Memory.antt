-- ===== src/Replace/Memory.antt =====
-- Memory as the string functions of C see it, and what they read and write in it.
use native.Mathlib.Nat.{add-zero, add-suc, suc-add}
use boundary_event_sdk.Prelude.{
  ℕ, zero, suc, ◌+◌, ◌≤◌, ◌<◌, ◌≡◌, ◌≢◌, ◌⊎◌, inl, refl, [], ◌∷◌, ◌++◌, Bytes, length, drop, ◌==◌,
  if◌then◌else◌, true, false, arith, ◌∙◌,
}

abbrev pub Mem : Type 0
Mem = ℕ → ℕ

unfoldable pub update : Mem → ℕ → ℕ → Mem
update f p v i = if i == p then v else f i

-- The bytes from `p` to the next NUL, at most `bound` of them.
unfoldable pub c_string : (bound : ℕ) → Mem → ℕ → Bytes
c_string zero f p = []
c_string (suc n) f p = elim (f p == 0) [ true ↦ [] | false ↦ f p ∷ c_string n f (suc p) ]

-- `strncpy(p, s, strlen(s))`: the bytes of `s` with no NUL behind them
unfoldable pub put_bytes : Mem → ℕ → Bytes → Mem
unfolding update
put_bytes f p [] = f
put_bytes f p (c ∷ s) = put_bytes (update f p c) (suc p) s

-- `strcpy(new, s)`
unfoldable pub strcpy : Mem → Bytes → Mem
unfolding put_bytes
strcpy f s = put_bytes f 0 (s ++ 0 ∷ [])

abbrev pub NoNul : Bytes → Type 0
NoNul [] = Unit {0}
NoNul (c ∷ s) = (c ≢ 0) × NoNul s

-- The string `s` stands at `p`, with its NUL.
abbrev pub Holds : Mem → ℕ → Bytes → Type 0
Holds f p [] = f p ≡ 0
Holds f p (c ∷ s) = (f p ≡ c) × (c ≢ 0) × Holds f (suc p) s

pub c_string-Holds :
    (n : ℕ) (f : Mem) (p : ℕ) (s : Bytes) → Holds f p s → length s < n → c_string n f p ≡ s
unfolding c_string
c_string-Holds zero f p s h lt = absurd (omega arith)
c_string-Holds (suc n) f p [] h lt = ground arith
c_string-Holds (suc n) f p (c ∷ s) h lt = ground (arith, c_string-Holds n f (suc p) s h.2)

-- A string moves with the bytes that hold it.
pub Holds-move :
    (s : Bytes) (f g : Mem) (p q : ℕ)
    → ((i : ℕ) → i ≤ length s → g (q + i) ≡ f (p + i))
    → Holds f p s
    → Holds g q s
Holds-move [] f g p q e h = rw (add-zero, add-zero) at (e 0 (omega arith)) ∙ h
Holds-move (c ∷ s) f g p q e h = (
  rw (add-zero, add-zero) at (e 0 (omega arith)) ∙ h.0,
  h.1,
  Holds-move s f g (suc p) (suc q)
      (λ i le. rw (suc-add, suc-add, ← add-suc, ← add-suc) (e (suc i) (omega arith))) h.2,
)

-- Writing a string's bytes changes nothing else.
pub put_bytes-other :
    (s : Bytes) (f : Mem) (p i : ℕ) → (i < p) ⊎ (p + length s ≤ i) → put_bytes f p s i ≡ f i
unfolding put_bytes
put_bytes-other [] f p i h = refl
put_bytes-other (c ∷ s) f p i h = ground (arith, put_bytes-other s (update f p c) (suc p) i)

-- The bytes written, and a string that already stands behind them, make one string.
pub Holds-put_bytes :
    (s t : Bytes) (f : Mem) (p : ℕ)
    → NoNul s
    → Holds f (p + length s) t
    → Holds (put_bytes f p s) p (s ++ t)
unfolding put_bytes
Holds-put_bytes [] t f p n h = rw add-zero at h
Holds-put_bytes (c ∷ s) t f p n h = (
  put_bytes-other s (update f p c) (suc p) p (inl (omega arith)) ∙ ground arith,
  n.0,
  Holds-put_bytes s t (update f p c) (suc p) n.1 (
      Holds-move t f (update f p c) (p + suc (length s)) (suc p + length s) (λ i le. ground arith)
        h),
)

-- The tail of a string stands further up.
pub Holds-drop :
    (k : ℕ) (f : Mem) (p : ℕ) (s : Bytes) → Holds f p s → k ≤ length s → Holds f (p + k) (drop k s)
Holds-drop zero f p s h le = rw add-zero h
Holds-drop (suc k) f p [] h le = absurd (omega arith)
Holds-drop (suc k) f p (c ∷ s) h le =
    rw (add-suc, ← suc-add) (Holds-drop k f (suc p) s h.2 (omega arith))

-- A string's NUL, and its bytes, which are not NUL.
pub Holds-end : (f : Mem) (p : ℕ) (s : Bytes) → Holds f p s → f (p + length s) ≡ 0
Holds-end f p [] h = rw add-zero h
Holds-end f p (c ∷ s) h = rw (add-suc, ← suc-add) (Holds-end f (suc p) s h.2)

pub Holds-inside :
    (i : ℕ) (f : Mem) (p : ℕ) (s : Bytes) → Holds f p s → i < length s → f (p + i) ≢ 0
Holds-inside zero f p [] h lt = elim lt [ ]
Holds-inside zero f p (c ∷ s) h lt = rw (add-zero, h.0) h.1
Holds-inside (suc i) f p [] h lt = elim lt [ ]
Holds-inside (suc i) f p (c ∷ s) h lt =
    rw (add-suc, ← suc-add) (Holds-inside i f (suc p) s h.2 (omega arith))

-- The length of what stands at `p` is read off the first NUL.
pub length-c_string :
    (n l : ℕ) (f : Mem) (p : ℕ)
    → ((i : ℕ) → i < l → f (p + i) ≢ 0)
    → f (p + l) ≡ 0
    → l < n
    → length (c_string n f p) ≡ l
unfolding c_string
length-c_string zero l f p ne e lt = absurd (omega arith)
length-c_string (suc n) zero f p ne e lt = let e' = rw add-zero at e in ground arith
length-c_string (suc n) (suc l) f p ne e lt =
    let first = rw add-zero at (ne 0 (omega arith)) in
    ground (
      arith,
      length-c_string n l f (suc p) (λ i h. rw (suc-add, ← add-suc) (ne (suc i) (omega arith)))
          (rw (suc-add, ← add-suc) e),
    )
