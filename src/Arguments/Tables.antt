-- ===== src/Arguments/Tables.antt =====
-- The two tables of `parse`, which have a slot for each argument.
use boundary_event_sdk.Prelude.{
  ℕ, ◌+◌, ◌≤◌, ◌≡◌, inl, inr, Bool, List, [], ◌∷◌, ◌++◌, Bytes, length, length-append, length-drop,
  arith,
}
use boundary_event_sdk.Arguments.Classpath.{Os}
use boundary_event_sdk.Arguments.Options.{Opt, classpath, classify}
use boundary_event_sdk.Arguments.Loop.{OnStep, parse_inv}
use boundary_event_sdk.Arguments.{ArgData, apply, defaults, parsed, parse}

length-snoc {ℓ} : {A : Type ℓ} (xs : List A) (a : A) → length (xs ++ a ∷ []) ≡ length xs + 1
length-snoc xs a = length-append xs (a ∷ [])

module _ (n : ℕ) where
  -- So far `args` is empty, and `opts` has at most one entry for each argument read.
  record Fits (rest : List Bytes) (s : ArgData) : Type 0 where
    room : length s.opts + length rest ≤ n
    unused : s.args ≡ []

  record AllFit (s : ArgData) : Type 0 where
    fit : length s.opts + length s.args ≤ n

  apply-Fits :
      (os : Os) (o : Opt) (a : Bytes) (rest : List Bytes) (s : ArgData)
      → Fits (a ∷ rest) s
      → OnStep Fits AllFit Fits rest (apply os o a rest s)
  unfolding apply
  apply-Fits os classpath a rest s h = grind (arith, length-drop 1 rest, length-snoc)
  apply-Fits os _ a rest s h = ground (arith, length-drop 1 rest, length-snoc s.opts a)

  start-Fits : (junk : Bool) (rest : List Bytes) → length rest ≤ n → Fits rest (defaults junk)
  unfolding defaults
  start-Fits junk rest h = ground arith

-- The options for the JVM and the arguments of the class are together at most as many as the
-- arguments behind `argv[0]`, so neither overruns its table of `argc` entries.
pub parse_tables :
    (os : Os) (junk : Bool) (rest : List Bytes) (s : ArgData)
    → parse os junk rest ≡ parsed s
    → length s.opts + length s.args ≤ length rest
parse_tables os junk rest s h =
    elim (parse_inv os junk rest s h (Fits (length rest)) (AllFit (length rest))
      (Fits (length rest)) (λ a r t. apply-Fits (length rest) os (classify a) a r t) (λ t v. v)
      (start-Fits (length rest) junk rest (omega arith))) [
        | inl all ↦ all.fit
        | inr (t, left, same, v, why) ↦ rw (same, v.unused) v.room
      ]
