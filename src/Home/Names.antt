-- ===== src/Home/Names.antt =====
-- What a VM's name in the configuration can be.
use boundary_event_sdk.Prelude.{ℕ, ◌≡◌, ◌≢◌, false, [], ◌∷◌, Bytes, arith}
use boundary_event_sdk.Home.{is_blank, cut_at, skip_blanks, trim_end, line_name}

abbrev pub Without : ℕ → Bytes → Type 0
Without d [] = Unit {0}
Without d (c ∷ s) = (c ≢ d) × Without d s

-- It begins with no blank and no dash.
abbrev pub Begins : Bytes → Type 0
Begins [] = Unit {0}
Begins (c ∷ s) = is_blank c ≡ false

cut_at-Without : (d : ℕ) (s : Bytes) → Without d (cut_at d s)
unfolding cut_at
cut_at-Without d [] = tt
cut_at-Without d (c ∷ s) = ground (arith, cut_at-Without d s)

cut_at-keeps : (e d : ℕ) (s : Bytes) → Without e s → Without e (cut_at d s)
unfolding cut_at
cut_at-keeps e d [] h = tt
cut_at-keeps e d (c ∷ s) h = ground (arith, cut_at-keeps e d s h.1)

skip_blanks-keeps : (e : ℕ) (s : Bytes) → Without e s → Without e (skip_blanks s)
unfolding skip_blanks
skip_blanks-keeps e [] h = tt
skip_blanks-keeps e (c ∷ s) h = ground (arith, skip_blanks-keeps e s h.1)

skip_blanks-Begins : (s : Bytes) → Begins (skip_blanks s)
unfolding skip_blanks
skip_blanks-Begins [] = tt
skip_blanks-Begins (c ∷ s) = ground (arith, skip_blanks-Begins s)

trim_end-keeps : (e : ℕ) (s : Bytes) → Without e s → Without e (trim_end s)
unfolding trim_end
trim_end-keeps e [] h = tt
trim_end-keeps e (c ∷ s) h = ground (arith, trim_end-keeps e s h.1)

trim_end-Begins : (s : Bytes) → Begins s → Begins (trim_end s)
unfolding trim_end
trim_end-Begins [] h = tt
trim_end-Begins (c ∷ s) h = ground arith

cut_at-Begins : (d : ℕ) (s : Bytes) → Begins s → Begins (cut_at d s)
unfolding cut_at
cut_at-Begins d [] h = tt
cut_at-Begins d (c ∷ s) h = ground arith

-- The name that is read from a line has no '#' and no space in it, and begins with no tab and no dash.
pub line_name-IsName :
    (line : Bytes)
    → Without b'#' (line_name line) × Without b' ' (line_name line) × Begins (line_name line)
unfolding line_name
line_name-IsName line =
    let bare : Bytes = skip_blanks (cut_at b'#' line) in
    (
      cut_at-keeps b'#' b' ' (trim_end bare) (
          trim_end-keeps b'#' bare
            (skip_blanks-keeps b'#' (cut_at b'#' line) (cut_at-Without b'#' line))),
      cut_at-Without b' ' (trim_end bare),
      cut_at-Begins b' ' (trim_end bare)
          (trim_end-Begins bare (skip_blanks-Begins (cut_at b'#' line))),
    )
