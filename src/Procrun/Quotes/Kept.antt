-- ===== src/Procrun/Quotes/Kept.antt =====
-- Units taken out and replaced, and the quotes that are kept.
use boundary_event_sdk.Prelude.{
  ℕ, suc, ◌+◌, ◌≡◌, ◌≢◌, refl, true, false, [], ◌∷◌, ◌++◌, Bytes, length, ◌==◌, arith, Bool-cases,
  if_elim, inl, inr,
}
use boundary_event_sdk.Home.Names.{Without}
use boundary_event_sdk.Procrun.Commands.Image.{quote_inplace, has_space}
use boundary_event_sdk.Procrun.Quotes.{char_remove, char_replace, needs_quote, un_quote_inplace}

-- What is left has none of the units, and with those taken out the length of the string.
char_remove-Without : (s : Bytes) (d : ℕ) → Without d ((char_remove s d).0)
unfolding char_remove
char_remove-Without [] d = tt
char_remove-Without (c ∷ s) d =
    if_elim (λ (r : Bytes × ℕ). Without d (r.0)) (c == d) _ _ (λ _. char_remove-Without s d)
      (λ h. (λ e. ground (arith, h, e), char_remove-Without s d))

length-char_remove :
    (s : Bytes) (d : ℕ) → length ((char_remove s d).0) + (char_remove s d).1 ≡ length s
unfolding char_remove
length-char_remove [] d = refl
length-char_remove (c ∷ s) d =
    if_elim (λ (r : Bytes × ℕ). length (r.0) + r.1 ≡ suc (length s)) (c == d) _ _
      (λ _. omega (arith, length-char_remove s d)) (λ _. omega (arith, length-char_remove s d))

-- A string that lacks the unit stays as it is.
char_remove_lacked : (s : Bytes) (d : ℕ) → Without d s → char_remove s d ≡ (s, 0)
unfolding char_remove
char_remove_lacked [] d h = refl
char_remove_lacked (c ∷ s) d h = ground (arith, h, char_remove_lacked s d h.1)

-- Replacing a unit by another leaves none of it.
char_replace-Without : (s : Bytes) (d e : ℕ) → d ≢ e → Without d (char_replace s d e)
unfolding char_replace
char_replace-Without [] d e n = tt
char_replace-Without (c ∷ s) d e n =
    if_elim (Without d) (c == d) _ _
      (λ _. (λ h. ground (arith, n, h), char_replace-Without s d e n))
      (λ k. (λ h. ground (arith, k, h), char_replace-Without s d e n))

needs_quote-quoted :
    (s t : Bytes) → Without b'"' s → has_space s ≡ true → needs_quote true (s ++ t) ≡ true
unfolding needs_quote has_space
needs_quote-quoted [] t h k = absurd (ground (arith, k))
needs_quote-quoted (c ∷ s) t h k = ground (arith, h, k, needs_quote-quoted s t h.1)

needs_quote_lacked : (s : Bytes) → Without b'"' s → needs_quote false s ≡ false
unfolding needs_quote
needs_quote_lacked [] h = refl
needs_quote_lacked (c ∷ s) h = ground (arith, h, needs_quote_lacked s h.1)

-- What `apxStrQuoteInplaceW` makes of a string without quotes, `apxStrUnQuoteInplaceW` leaves as it is: the
-- quotes around a space are kept.
un_quote_inplace-quote_inplace :
    (s : Bytes) → Without b'"' s → un_quote_inplace (quote_inplace s) ≡ (quote_inplace s, 0)
unfolding un_quote_inplace quote_inplace
un_quote_inplace-quote_inplace s h = elim (Bool-cases (has_space s)) [
  | inl e ↦ rw (e, needs_quote-quoted s (b'"' ∷ []) h e)
  | inr e ↦ rw (e, needs_quote_lacked s h) (char_remove_lacked s b'"' h)
]
