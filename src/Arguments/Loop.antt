-- ===== src/Arguments/Loop.antt =====
-- An invariant of the parser's loop follows from what one round does.
use boundary_event_sdk.Prelude.{
  List, [], ◌∷◌, ◌++◌, Bytes, drop, Bool, true, ◌≡◌, refl, ◌⊎◌, inl, inr, is_some, arith,
}
use boundary_event_sdk.Arguments.Classpath.{Os}
use boundary_event_sdk.Arguments.Options.{classify}
use boundary_event_sdk.Arguments.{
  ArgData, Step, fail, finish, next, skip, found, apply, LoopEnd, returned, ended, parse_loop,
  after_loop, parsed, parse, defaults,
}

-- `P rest s`: before a round with the arguments `rest` to come. `Q s`: at `return args`. `E rest s`:
-- behind the loop, with `rest` for the class.
module _ (P : List Bytes → ArgData → Type 0) (Q : ArgData → Type 0)
    (E : List Bytes → ArgData → Type 0) where
  abbrev pub OnStep : List Bytes → Step → Type 0
  OnStep rest (fail e) = Unit {0}
  OnStep rest (finish s) = Q s
  OnStep rest (next s) = P rest s
  OnStep rest (skip s) = P (drop 1 rest) s
  OnStep rest (found s) = E rest s

  abbrev pub OnEnd : LoopEnd → Type 0
  OnEnd (LoopEnd.error e) = Unit {0}
  OnEnd (returned s) = Q s
  OnEnd (ended s rest) = E rest s

module _ (os : Os) (P : List Bytes → ArgData → Type 0) (Q : ArgData → Type 0)
    (E : List Bytes → ArgData → Type 0)
    (keep : (a : Bytes) (rest : List Bytes) (s : ArgData)
      → P (a ∷ rest) s
      → OnStep P Q E rest (apply os (classify a) a rest s))
    (stop : (s : ArgData) → P [] s → E [] s) where
  pub parse_loop_inv :
      (rest : List Bytes) (s : ArgData) → P rest s → OnEnd P Q E (parse_loop os rest s)
  unfolding parse_loop
  parse_loop_inv [] s h = stop s h
  parse_loop_inv (a ∷ []) s h = last (apply os (classify a) a [] s) (keep a [] s h)
    where
      last :
          (t : Step)
          → OnStep P Q E [] t
          → OnEnd P Q E (elim t [
            | fail e ↦ LoopEnd.error e
            | finish s' ↦ returned s'
            | next s' ↦ ended s' []
            | skip s' ↦ ended s' []
            | found s' ↦ ended s' []
          ])
      last (fail e) k = tt
      last (finish s') k = k
      last (next s') k = stop s' k
      last (skip s') k = stop s' k
      last (found s') k = k
  parse_loop_inv (a ∷ b ∷ rest) s h =
      inner (apply os (classify a) a (b ∷ rest) s) (keep a (b ∷ rest) s h)
        (parse_loop_inv (b ∷ rest)) (parse_loop_inv rest)
    where
      inner :
          (t : Step)
          → OnStep P Q E (b ∷ rest) t
          → ((s' : ArgData) → P (b ∷ rest) s' → OnEnd P Q E (parse_loop os (b ∷ rest) s'))
          → ((s' : ArgData) → P rest s' → OnEnd P Q E (parse_loop os rest s'))
          → OnEnd P Q E (elim t [
            | fail e ↦ LoopEnd.error e
            | finish s' ↦ returned s'
            | next s' ↦ parse_loop os (b ∷ rest) s'
            | skip s' ↦ parse_loop os rest s'
            | found s' ↦ ended s' (b ∷ rest)
          ])
      inner (fail e) k by_one by_two = tt
      inner (finish s') k by_one by_two = k
      inner (next s') k by_one by_two = by_one s' k
      inner (skip s') k by_one by_two = by_two s' k
      inner (found s') k by_one by_two = k

-- The two ways in which `parse` succeeds.
pub after_loop-parsed :
    (e : LoopEnd) (s : ArgData)
    → after_loop e ≡ parsed s
    → (e ≡ returned s)
      ⊎ ((t : ArgData) × (left : List Bytes) × (e ≡ ended t left)
          × (s ≡ record t { args = t.args ++ left })
          × ((is_some t.clas ≡ true) ⊎ (t.remove_service ≡ true)))
unfolding after_loop
after_loop-parsed (LoopEnd.error e) s h = cc
after_loop-parsed (returned t) s h = inl (cc)
after_loop-parsed (ended t left) s h = inr (t, left, refl, ground arith, ground arith)

pub parse-parsed :
    (os : Os) (junk : Bool) (rest : List Bytes) (s : ArgData)
    → parse os junk rest ≡ parsed s
    → after_loop (parse_loop os rest (defaults junk)) ≡ parsed s
unfolding parse
parse-parsed os junk rest s h = ground arith

module _ (os : Os) (junk : Bool) (rest : List Bytes) (s : ArgData)
    (h : parse os junk rest ≡ parsed s) (P : List Bytes → ArgData → Type 0) (Q : ArgData → Type 0)
    (E : List Bytes → ArgData → Type 0)
    (keep : (a : Bytes) (rest : List Bytes) (s : ArgData)
      → P (a ∷ rest) s
      → OnStep P Q E rest (apply os (classify a) a rest s))
    (stop : (s : ArgData) → P [] s → E [] s) (start : P rest (defaults junk)) where
  -- What `parse` returns satisfies `Q`, or it satisfies `E` but for the class's words, which are added.
  pub parse_inv :
      Q s
      ⊎ ((t : ArgData) × (left : List Bytes) × (s ≡ record t { args = t.args ++ left })
          × E left t
          × ((is_some t.clas ≡ true) ⊎ (t.remove_service ≡ true)))
  parse_inv =
      elim (after_loop-parsed (parse_loop os rest (defaults junk)) s
        (parse-parsed os junk rest s h)) [
          | inl e ↦ inl (rw e at (parse_loop_inv os P Q E keep stop rest (defaults junk) start))
          | inr (t, left, e, same, why) ↦ inr (
            t,
            left,
            same,
            rw e at (parse_loop_inv os P Q E keep stop rest (defaults junk) start),
            why,
          )
        ]
