-- ===== src/Procrun/Cmdline/Values.antt =====
-- The block of a list of strings, as values are put behind one another.
use boundary_event_sdk.Prelude.{
  ℕ, ◌+◌, ◌-◌, ◌*◌, ◌≤◌, ◌≡◌, ◌≢◌, ◌⊎◌, inl, inr, refl, ap, sym, ◌∙◌, false, some, List, [], ◌∷◌,
  ◌++◌, Bytes, length, take, arith, append_assoc, append-nil, length-append,
}
use boundary_event_sdk.Procrun.MultiSz.{zeros, contents}
use boundary_event_sdk.Procrun.MultiSz.Items.{spell, spell-append, take-append}
use boundary_event_sdk.Procrun.Cmdline.Options.{Opt, quoted, set_list, kept_units}

-- A unit that stands for itself in a value.
abbrev pub IsPlain : Bytes → Type 0
IsPlain [] = Unit {0}
IsPlain (c ∷ s) = (c ≢ b'\'') × (c ≢ b'"') × (c ≢ b'#') × (c ≢ b';') × IsPlain s

abbrev pub AllPlain : List Bytes → Type 0
AllPlain [] = Unit {0}
AllPlain (s ∷ items) = IsPlain s × AllPlain items

-- The strings as a value spells them, with `#` between.
abbrev pub hashed : Bytes → List Bytes → Bytes
hashed s [] = s
hashed s (t ∷ items) = s ++ (b'#' ∷ hashed t items)

quoted-append :
    (s rest : Bytes) → IsPlain s → quoted false false (s ++ rest) ≡ s ++ quoted false false rest
unfolding quoted
quoted-append [] rest h = refl
quoted-append (c ∷ s) rest h = ground (arith, quoted-append s rest h.4)

quoted_hash : (rest : Bytes) → quoted false false (b'#' ∷ rest) ≡ 0 ∷ quoted false false rest
unfolding quoted
quoted_hash rest = ground arith

quoted_nil : quoted false false [] ≡ []
unfolding quoted
quoted_nil = refl

quoted-plain : (s : Bytes) → IsPlain s → quoted false false s ≡ s
quoted-plain s h =
    ap (quoted false false) (sym (append-nil s))
    ∙ quoted-append s [] h
    ∙ ap (λ t. s ++ t) quoted_nil
    ∙ append-nil s

-- What is stored for a value is its strings with their NULs, but the last NUL.
pub quoted-hashed :
    (s : Bytes) (items : List Bytes)
    → AllPlain (s ∷ items)
    → quoted false false (hashed s items) ++ (0 ∷ []) ≡ spell (s ∷ items)
quoted-hashed s [] h = ap (λ t. t ++ (0 ∷ [])) (quoted-plain s h.0)
quoted-hashed s (t ∷ items) h =
    rw (quoted-append s (b'#' ∷ hashed t items) h.0, quoted_hash, append_assoc)
      (ap (λ u. s ++ (0 ∷ u)) (quoted-hashed t items h.1))

pub length-quoted :
    (s : Bytes) (items : List Bytes)
    → AllPlain (s ∷ items)
    → length (quoted false false (hashed s items)) ≡ length (hashed s items)
length-quoted s [] h = ap length (quoted-plain s h.0)
length-quoted s (t ∷ items) h =
    rw (quoted-append s (b'#' ∷ hashed t items) h.0, quoted_hash)
      (omega (
        arith,
        length-quoted t items h.1,
        length-append s (0 ∷ quoted false false (hashed t items)),
        length-append s (b'#' ∷ hashed t items),
      ))

-- What an option has collected: nothing yet, or just the strings in its block.
abbrev pub Collected : Opt → List Bytes → Type 0
Collected o items =
    ((items ≡ []) × (o.dw_value ≤ 2))
    ⊎ ((o.dw_value ≡ (length (spell items) + 1) * 2)
        × (o.sz_value ≡ some (spell items ++ (0 ∷ []))))

kept-spell :
    (o : Opt) (items : List Bytes) → Collected o items → kept_units o ≡ length (spell items)
unfolding kept_units
kept-spell o items (inl (e, le)) = ground (arith, ap (λ t. length (spell t)) e)
kept-spell o items (inr (n, e)) = ground arith

-- What is kept of the block is the strings with their NULs.
take-contents :
    (o : Opt) (items : List Bytes)
    → Collected o items
    → take (length (spell items)) (contents (o.sz_value)) ≡ spell items
unfolding contents
take-contents o items (inl (e, le)) = rw e refl
take-contents o items (inr (n, e)) = rw e (take-append (spell items) (0 ∷ []))

length-spell-hashed :
    (s : Bytes) (items : List Bytes)
    → AllPlain (s ∷ items)
    → length (spell (s ∷ items)) ≡ length (hashed s items) + 1
length-spell-hashed s items plain = omega (
  arith,
  ap length (quoted-hashed s items plain),
  length-append (quoted false false (hashed s items)) (0 ∷ []),
  length-quoted s items plain,
)

-- The value's units and the two zeros behind them.
padded-spell :
    (s : Bytes) (items : List Bytes)
    → AllPlain (s ∷ items)
    → quoted false false (hashed s items)
        ++ zeros (length (hashed s items) + 2 - length (quoted false false (hashed s items)))
      ≡ spell (s ∷ items) ++ (0 ∷ [])
padded-spell s items plain =
    rw (length-quoted s items plain, two (length (hashed s items)), ← quoted-hashed s items plain)
      (sym (append_assoc (quoted false false (hashed s items)) (0 ∷ []) (0 ∷ [])))
  where
    two : (n : ℕ) → zeros (n + 2 - n) ≡ 0 ∷ 0 ∷ []
    two n = let e : n + 2 - n ≡ 2 = omega arith in ap zeros e

-- A value of plain strings, none of them empty, is put behind those that the option has collected.
pub set_list-Collected :
    (o : Opt) (old : List Bytes) (s : Bytes) (items : List Bytes)
    → AllPlain (s ∷ items)
    → Collected o old
    → Collected (set_list (hashed s items) o) (old ++ (s ∷ items))
unfolding set_list
set_list-Collected o old s items plain h = inr (
  omega (
    arith,
    kept-spell o old h,
    ap length (spell-append old (s ∷ items)),
    length-append (spell old) (spell (s ∷ items)),
    length-spell-hashed s items plain,
  ),
  rw
      (
        kept-spell o old h,
        take-contents o old h,
        padded-spell s items plain,
        spell-append,
        append_assoc (spell old) (spell (s ∷ items)) (0 ∷ []),
      )
      refl,
)
