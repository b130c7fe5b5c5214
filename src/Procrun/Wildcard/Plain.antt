-- ===== src/Procrun/Wildcard/Plain.antt =====
-- Patterns without `?`: the loops of `apxStrMatchW`, which give up early and read memory, against the
-- description of what matches.
use mathlib.Core.Path.{fun_ext}
use mathlib.Core.Option
use boundary_event_sdk.Prelude.{
  ℕ, ◌≡◌, ◌≢◌, refl, sym, Bool, true, false, Option, none, some, [], ◌∷◌, ◌++◌, Bytes, ◌==◌, arith,
  ==_iff, if_elim,
}
use boundary_event_sdk.Replace.Memory.{NoNul}
use boundary_event_sdk.Procrun.Wildcard.{
  Verdict, matched, unmatched, aborted, asterisk, question, fold, ends, tries, compare_unit,
  loop_body, match_from, str_match,
}
use boundary_event_sdk.Procrun.Wildcard.Suffixes.{
  any_suffix, wild, any_suffix-any_suffix, any_suffix_self, any_suffix-empty, wild-asterisk,
  any_suffix-behind,
}

abbrev pub NoQuestion : Bytes → Type 0
NoQuestion [] = Unit {0}
NoQuestion (c ∷ p) = (c ≢ question) × NoQuestion p

-- A verdict on `s` agrees with the test `g`, and one that gives up rules out every suffix.
unfoldable IsRight : (g : Bytes → Bool) (s : Bytes) → Verdict → Type 0
IsRight g s matched = g s ≡ true
IsRight g s unmatched = g s ≡ false
IsRight g s aborted = any_suffix g s ≡ false

unfoldable Answers : (g : Bytes → Bool) (s : Bytes) → Option Verdict → Type 0
Answers g s none = false ≡ true
Answers g s (some v) = IsRight g s v

-- A unit that matches passes the verdict on the rest on.
IsRight-behind :
    (f : ℕ → ℕ) (c d : ℕ) (p s : Bytes) (v : Verdict)
    → c ≢ asterisk
    → f d ≡ f c
    → IsRight (wild f p) s v
    → IsRight (wild f (c ∷ p)) (d ∷ s) v
unfolding IsRight wild
IsRight-behind f c d p s matched ne e h = ground (arith, h, e)
IsRight-behind f c d p s unmatched ne e h = ground (arith, h, e)
IsRight-behind f c d p s aborted ne e h = any_suffix-behind f c d p s ne h

Answers-behind :
    (f : ℕ → ℕ) (c d : ℕ) (p s : Bytes) (r : Option Verdict)
    → c ≢ asterisk
    → f d ≡ f c
    → Answers (wild f p) s r
    → Answers (wild f (c ∷ p)) (d ∷ s) r
unfolding Answers
Answers-behind f c d p s none ne e h = h
Answers-behind f c d p s (some v) ne e h = IsRight-behind f c d p s v ne e h

-- One call of the loop behind an asterisk, then the calls for the shorter suffixes
Answers-step :
    (g : Bytes → Bool) (d : ℕ) (s : Bytes) (call rest : Option Verdict)
    → Answers g (d ∷ s) call
    → Answers (any_suffix g) s rest
    → Answers
        (any_suffix g)
        (d ∷ s)
        (elim call [ none ↦ none | some unmatched ↦ rest | some v ↦ some v ])
unfolding Answers IsRight any_suffix
Answers-step g d s none rest h k = h
Answers-step g d s (some matched) rest h k = ground (arith, h)
Answers-step g d s (some aborted) rest h k = ground (arith, h, any_suffix-any_suffix g (d ∷ s))
Answers-step g d s (some unmatched) none h k = k
Answers-step g d s (some unmatched) (some matched) h k = ground (arith, h, k)
Answers-step g d s (some unmatched) (some unmatched) h k = ground (arith, h, k)
Answers-step g d s (some unmatched) (some aborted) h k =
    ground (arith, h, k, any_suffix-any_suffix g s)

tries-Answers :
    (g : Bytes → Bool) (call : Bytes → Option Verdict) (s t : Bytes)
    → g [] ≡ false
    → NoNul s
    → ((q : Bytes) → NoNul q → Answers g q (call (q ++ (0 ∷ t))))
    → Answers (any_suffix g) s (tries call (s ++ (0 ∷ t)))
unfolding tries
tries-Answers g call [] t e h a = unfold Answers IsRight any_suffix in e
tries-Answers g call (d ∷ s) t e h a =
    if_elim (Answers (any_suffix g) (d ∷ s)) (d == 0) _ _ (λ z. absurd (h.0 ((==_iff d 0).0 z)))
      (λ _. Answers-step g d s _ _ (a (d ∷ s) h) (tries-Answers g call s t e h.1 a))

-- `f` tells every unit from the NUL.
abbrev pub IsApart : (ℕ → ℕ) → Type 0
IsApart f = (c : ℕ) → c ≢ 0 → f 0 ≢ f c

Answers-unmatched : (g : Bytes → Bool) (s : Bytes) → g s ≡ false → Answers g s (some unmatched)
unfolding Answers IsRight
Answers-unmatched g s h = h

wild-end : (f : ℕ → ℕ) (c : ℕ) (p : Bytes) → (c == asterisk) ≡ false → wild f (c ∷ p) [] ≡ false
unfolding wild
wild-end f c p h = ground (arith, h)

wild-differs :
    (f : ℕ → ℕ) (c d : ℕ) (p s : Bytes)
    → (c == asterisk) ≡ false
    → (f d == f c) ≡ false
    → wild f (c ∷ p) (d ∷ s) ≡ false
unfolding wild
wild-differs f c d p s h k = ground (arith, h, k)

is_other : (c d : ℕ) → (c == d) ≡ false → c ≢ d
is_other c d h e = ground (arith, h, e)

-- One unit of the pattern that is no asterisk, before `p`
compare_unit-Answers :
    (f : ℕ → ℕ) (c : ℕ) (p s t : Bytes) (next : Bytes → Option Verdict)
    → IsApart f
    → c ≢ 0
    → c ≢ question
    → (c == asterisk) ≡ false
    → NoNul s
    → ((q : Bytes) → NoNul q → Answers (wild f p) q (next (q ++ (0 ∷ t))))
    → Answers (wild f (c ∷ p)) s (compare_unit f c next (s ++ (0 ∷ t)))
unfolding compare_unit
compare_unit-Answers f c p [] t next apart nz nq na h a =
    if_elim (Answers (wild f (c ∷ p)) []) (c == question) _ _
      (λ z. absurd (nq ((==_iff c question).0 z)))
      (λ _.
        if_elim (Answers (wild f (c ∷ p)) []) (f 0 == f c) _ _
          (λ z. absurd (apart c nz ((==_iff (f 0) (f c)).0 z)))
          (λ _. Answers-unmatched (wild f (c ∷ p)) [] (wild-end f c p na)))
compare_unit-Answers f c p (d ∷ s) t next apart nz nq na h a =
    if_elim (Answers (wild f (c ∷ p)) (d ∷ s)) (c == question) _ _
      (λ z. absurd (nq ((==_iff c question).0 z)))
      (λ _.
        if_elim (Answers (wild f (c ∷ p)) (d ∷ s)) (f d == f c) _ _
          (λ z.
            Answers-behind f c d p s _ (is_other c asterisk na) ((==_iff (f d) (f c)).0 z)
              (a s h.1))
          (λ z. Answers-unmatched (wild f (c ∷ p)) (d ∷ s) (wild-differs f c d p s na z)))

-- One turn of the loop
loop_body-Answers :
    (f : ℕ → ℕ) (c : ℕ) (p s t at_x : Bytes) (star : Bytes → Option Verdict)
    (next : Bytes → Bytes → Option Verdict)
    → IsApart f
    → c ≢ 0
    → c ≢ question
    → NoNul s
    → ((q : Bytes) → NoNul q → Answers (any_suffix (wild f p)) q (star (q ++ (0 ∷ t))))
    → ((q : Bytes) → NoNul q → Answers (wild f p) q (next at_x (q ++ (0 ∷ t))))
    → Answers (wild f (c ∷ p)) s (loop_body f c (c ∷ at_x) star next (s ++ (0 ∷ t)))
unfolding loop_body
loop_body-Answers f c p s t at_x star next apart nz nq h a b =
    if_elim (Answers (wild f (c ∷ p)) s) (c == 0) _ _ (λ z. absurd (nz ((==_iff c 0).0 z)))
      (λ z. rw z (
        if_elim (Answers (wild f (c ∷ p)) s) (c == asterisk) _ _
          (λ y.
            let e : c ≡ asterisk = (==_iff c asterisk).0 y in
            let g : wild f (asterisk ∷ p) ≡ any_suffix (wild f p) =
              fun_ext (λ q. wild-asterisk f p q) in
            rw e (rw g (a s h)))
          (λ y. compare_unit-Answers f c p s t (next at_x) apart nz nq y h b)))

ends-Answers : (f : ℕ → ℕ) (s t : Bytes) → NoNul s → Answers (wild f []) s (ends (s ++ (0 ∷ t)))
unfolding ends Answers IsRight wild
ends-Answers f [] t h = refl
ends-Answers f (d ∷ s) t h =
    if_elim (λ v. Answers (wild f []) (d ∷ s) (some v)) (d == 0) _ _
      (λ z. absurd (h.0 ((==_iff d 0).0 z))) (λ _. refl)

-- The two ways into the matcher, at the head of the loop and behind an asterisk
match_from-Answers :
    (f : ℕ → ℕ) (p t u : Bytes)
    → IsApart f
    → NoNul p
    → NoQuestion p
    → ((s : Bytes)
        → NoNul s
        → Answers (wild f p) s (match_from f false (p ++ (0 ∷ u)) (p ++ (0 ∷ u)) (s ++ (0 ∷ t))))
      × ((at_x s : Bytes)
          → NoNul s
          → Answers
              (any_suffix (wild f p))
              s
              (match_from f true (p ++ (0 ∷ u)) at_x (s ++ (0 ∷ t))))
unfolding match_from
match_from-Answers f [] t u apart hp hq = (
  λ s h. unfold loop_body in ends-Answers f s t h,
  λ at_x s h. unfold Answers IsRight in any_suffix-empty f s,
)
match_from-Answers f (c ∷ p) t u apart hp hq =
    let rest = match_from-Answers f p t u apart hp.1 hq.1 in
    let body = λ (s : Bytes) (h : NoNul s).
      loop_body-Answers f c p s t (p ++ (0 ∷ u)) (λ r. match_from f true (p ++ (0 ∷ u)) [] r)
        (λ q r. match_from f false (p ++ (0 ∷ u)) q r) apart hp.0 hq.0 h (rest.1 []) rest.0 in
    (
      body,
      λ at_x s h.
          if_elim (Answers (any_suffix (wild f (c ∷ p))) s) (c == asterisk) _ _
            (λ y.
              let e : c ≡ asterisk = (==_iff c asterisk).0 y in
              let g : wild f (asterisk ∷ p) ≡ any_suffix (wild f p) =
                fun_ext (λ q. wild-asterisk f p q) in
              let g' : any_suffix (any_suffix (wild f p)) ≡ any_suffix (wild f p) =
                fun_ext (λ q. any_suffix-any_suffix (wild f p) q) in
              rw e (rw g (rw g' (rest.1 at_x s h))))
            (λ y.
              if_elim (Answers (any_suffix (wild f (c ∷ p))) s) (c == 0) _ _
                (λ z. absurd (hp.0 ((==_iff c 0).0 z)))
                (λ _.
                  tries-Answers (wild f (c ∷ p))
                    (loop_body f c (c ∷ (p ++ (0 ∷ u))) (λ r. match_from f true (p ++ (0 ∷ u)) [] r)
                      (λ q r. match_from f false (p ++ (0 ∷ u)) q r))
                    s t (wild-end f c p y) h body)),
    )

abbrev pub is_match : Verdict → Bool
is_match matched = true
is_match unmatched = false
is_match aborted = false

Answers-is_match :
    (g : Bytes → Bool) (s : Bytes) (r : Option Verdict)
    → Answers g s r
    → Option.map is_match r ≡ some (g s)
unfolding Answers IsRight
Answers-is_match g s none h = absurd (ground (arith, h))
Answers-is_match g s (some matched) h = rw h
Answers-is_match g s (some unmatched) h = rw h
Answers-is_match g s (some aborted) h = rw (any_suffix_self g s h)

fold-IsApart :
    (lower : ℕ → ℕ) (ignore_case : Bool) → IsApart lower → IsApart (fold lower ignore_case)
fold-IsApart lower true h c nz e = h c nz e
fold-IsApart lower false h c nz e = nz (sym e)

-- If `CharLowerW` tells the NUL from every other unit and the pattern has no `?`, then `apxStrMatchW`
-- reads only the string and the pattern, whatever stands behind them, and returns 0 exactly if the string
-- matches when each asterisk stands for any units, none included, and every other unit for itself, or for
-- one with the same lower case if case is ignored.
pub str_match-wild :
    (lower : ℕ → ℕ) (s p t u : Bytes) (ignore_case : Bool)
    → IsApart lower
    → NoNul s
    → NoNul p
    → NoQuestion p
    → Option.map is_match (str_match lower (s ++ (0 ∷ t)) (p ++ (0 ∷ u)) ignore_case)
      ≡ some (wild (fold lower ignore_case) p s)
unfolding str_match
str_match-wild lower s p t u ignore_case apart hs hp hq =
    Answers-is_match (wild (fold lower ignore_case) p) s _ (
      (match_from-Answers (fold lower ignore_case) p t u (fold-IsApart lower ignore_case apart) hp
          hq).0
        s hs)
