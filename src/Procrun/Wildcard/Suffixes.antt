-- ===== src/Procrun/Wildcard/Suffixes.antt =====
-- What it means to match a pattern, and the suffixes of a string.
use boundary_event_sdk.Prelude.{
  ℕ, ◌≡◌, ◌≢◌, refl, Bool, true, false, ◌&&◌, ◌||◌, [], ◌∷◌, Bytes, ◌==◌, if◌then◌else◌, arith,
}
use boundary_event_sdk.Procrun.Wildcard.{asterisk}

unfoldable pub any_suffix : (Bytes → Bool) → Bytes → Bool
any_suffix f [] = f []
any_suffix f (c ∷ s) = f (c ∷ s) || any_suffix f s

-- A pattern whose only special unit is the asterisk, which stands for any units.
unfoldable pub wild : (f : ℕ → ℕ) (pattern s : Bytes) → Bool
unfolding any_suffix
wild f [] [] = true
wild f [] (d ∷ s) = false
wild f (c ∷ p) [] = if c == asterisk then any_suffix (wild f p) [] else false
wild f (c ∷ p) (d ∷ s) =
    let rest = wild f p s in
    if c == asterisk then any_suffix (wild f p) (d ∷ s) else (f d == f c) && rest

pub any_suffix-any_suffix :
    (f : Bytes → Bool) (s : Bytes) → any_suffix (any_suffix f) s ≡ any_suffix f s
unfolding any_suffix
any_suffix-any_suffix f [] = refl
any_suffix-any_suffix f (c ∷ s) = ground (arith, any_suffix-any_suffix f s)

pub any_suffix_self : (f : Bytes → Bool) (s : Bytes) → any_suffix f s ≡ false → f s ≡ false
unfolding any_suffix
any_suffix_self f [] h = h
any_suffix_self f (c ∷ s) h = ground (arith, h)

pub any_suffix-empty : (f : ℕ → ℕ) (s : Bytes) → any_suffix (wild f []) s ≡ true
unfolding any_suffix wild
any_suffix-empty f [] = refl
any_suffix-empty f (c ∷ s) = any_suffix-empty f s

pub wild-asterisk : (f : ℕ → ℕ) (p s : Bytes) → wild f (asterisk ∷ p) s ≡ any_suffix (wild f p) s
unfolding wild
wild-asterisk f p [] = refl
wild-asterisk f p (d ∷ s) = refl

-- A unit in front of a pattern that no suffix matches.
pub any_suffix-behind :
    (f : ℕ → ℕ) (c d : ℕ) (p s : Bytes)
    → c ≢ asterisk
    → any_suffix (wild f p) s ≡ false
    → any_suffix (wild f (c ∷ p)) (d ∷ s) ≡ false
unfolding any_suffix wild
any_suffix-behind f c d p [] ne h = ground (arith, h)
any_suffix-behind f c d p (e ∷ s) ne h = ground (arith, any_suffix-behind f c e p s ne)
