-- ===== src/Arguments/Order.antt =====
-- Which words of the command line go where.
use boundary_event_sdk.Prelude.{
  ◌≡◌, inl, inr, ◌∙◌, refl, sym, Bool, true, false, some, none, List, [], ◌∷◌, ◌++◌, Bytes, codes,
  str_eq, drop, append_assoc, arith, ap,
}
use boundary_event_sdk.Arguments.Classpath.{Os}
use boundary_event_sdk.Arguments.Options.{Opt, classpath, class_name, showversion, classify}
use boundary_event_sdk.Arguments.Loop.{OnStep, parse_inv}
use boundary_event_sdk.Arguments.{
  ArgData, apply, defaults, parsed, parse, Step, fail, finish, next, skip, found,
}

module _ (line : List Bytes) where
  -- No class yet, and `rest` is what is left of the line.
  record Before (rest : List Bytes) (s : ArgData) : Type 0 where
    front : List Bytes
    splits : line ≡ front ++ rest
    no_class_yet : s.clas ≡ none
    no_args : s.args ≡ []

  -- The line split at the class.
  pub record Split (clas : Bytes) (left : List Bytes) : Type 0 where
    pub front : List Bytes
    pub splits : line ≡ front ++ clas ∷ left
    pub is_class : classify clas ≡ class_name

  record After (left : List Bytes) (s : ArgData) : Type 0 where
    split : (c : Bytes) → s.clas ≡ some c → Split c left
    no_args : s.args ≡ []

  Before-next :
      (a : Bytes) (rest : List Bytes) (s t : ArgData)
      → t.clas ≡ s.clas
      → t.args ≡ s.args
      → Before (a ∷ rest) s
      → Before rest t
  Before-next a rest s t c g b = record {
    front = b.front ++ a ∷ [];
    splits = b.splits ∙ sym (append_assoc b.front (a ∷ []) rest);
    no_class_yet = c ∙ b.no_class_yet;
    no_args = g ∙ b.no_args;
  }

  Before-skip :
      (a : Bytes) (rest : List Bytes) (s t : ArgData)
      → t.clas ≡ s.clas
      → t.args ≡ s.args
      → Before (a ∷ rest) s
      → Before (drop 1 rest) t
  Before-skip a [] s t c g b = Before-next a [] s t c g b
  Before-skip a (x ∷ rest) s t c g b =
      Before-next x rest t t refl refl (Before-next a (x ∷ rest) s t c g b)

  abbrev Kept : ArgData → Step → Type 0
  Kept s =
      OnStep (λ r t. (t.clas ≡ s.clas) × (t.args ≡ s.args)) (λ t. t.clas ≡ s.clas) (λ r t. Unit {0})
        []

  apply-Kept :
      (os : Os) (o : Opt) (a : Bytes) (rest : List Bytes) (s : ArgData)
      → Kept s (apply os o a rest s)
  unfolding apply
  apply-Kept os classpath a rest s = ground arith
  apply-Kept os _ a rest s = ground arith

  apply-found :
      (os : Os) (o : Opt) (a : Bytes) (rest : List Bytes) (s t : ArgData)
      → apply os o a rest s ≡ found t
      → (o ≡ class_name) × (t ≡ record s { clas = some a })
  unfolding apply
  apply-found os classpath a rest s t h = ground arith
  apply-found os _ a rest s t h = ground arith

  keeps :
      (a : Bytes) (rest : List Bytes) (s : ArgData) (t : Step)
      → Kept s t
      → ((u : ArgData) → t ≡ found u → (classify a ≡ class_name) × (u ≡ record s { clas = some a }))
      → Before (a ∷ rest) s
      → OnStep Before (λ u. u.clas ≡ none) After rest t
  keeps a rest s (fail e) k f b = tt
  keeps a rest s (finish t) k f b = k ∙ b.no_class_yet
  keeps a rest s (next t) k f b = Before-next a rest s t k.0 k.1 b
  keeps a rest s (skip t) k f b = Before-skip a rest s t k.0 k.1 b
  keeps a rest s (found t) k f b =
      let (named, same) = f t refl in
      rw same (record {
        split = λ c e.
            let this : a ≡ c = cc in
            record { front = b.front; splits = rw (← this) b.splits; is_class = rw (← this) named };
        no_args = b.no_args;
      })

  stops : (s : ArgData) → Before [] s → After [] s
  stops s b = record { split = λ c e. cc (b.no_class_yet); no_args = b.no_args }

  starts : (junk : Bool) → Before line (defaults junk)
  unfolding defaults
  starts junk = record { front = []; splits = refl; no_class_yet = refl; no_args = refl }

-- If a class is run, the command line is the words of the launcher, the class, and the class's own
-- arguments, which are handed on unread; the class is no option word.
pub parse_class :
    (os : Os) (junk : Bool) (rest : List Bytes) (s : ArgData) (c : Bytes)
    → parse os junk rest ≡ parsed s
    → s.clas ≡ some c
    → Split rest c s.args
parse_class os junk rest s c h named =
    elim (parse_inv os junk rest s h (Before rest) (λ u. u.clas ≡ none) (After rest)
      (λ a r t.
        keeps rest a r t (apply os (classify a) a r t) (apply-Kept rest os (classify a) a r t)
          (apply-found rest os (classify a) a r t))
      (stops rest) (starts rest junk)) [
        | inl unnamed ↦ cc
        | inr (t, left, same, after, why) ↦
            rw (same, after.no_args)
              (after.split c (ap (λ (u : ArgData). u.clas) (sym same) ∙ named))
      ]

-- The test for the word `-showversion` is exact.
classify-showversion :
    (a : Bytes) → classify a ≡ showversion → str_eq a (codes "-showversion") ≡ true
unfolding classify
classify-showversion a h = ground arith

-- No word of the list is `-showversion`.
abbrev pub Unmentioned : List Bytes → Type 0
Unmentioned [] = Unit {0}
Unmentioned (a ∷ rest) = (str_eq a (codes "-showversion") ≡ false) × Unmentioned rest

apply-vershow :
    (junk : Bool) (os : Os) (o : Opt) (a : Bytes) (rest : List Bytes) (s : ArgData)
    → (o ≡ showversion → ⊥)
    → s.vershow ≡ junk
    → OnStep
        (λ r t. t.vershow ≡ junk)
        (λ t. t.vershow ≡ junk)
        (λ r t. t.vershow ≡ junk)
        rest
        (apply os o a rest s)
unfolding apply
apply-vershow junk os classpath a rest s ne h = ground arith
apply-vershow junk os _ a rest s ne h = ground arith

Unmentioned-skip :
    (junk : Bool) (rest : List Bytes) (t : Step)
    → Unmentioned rest
    → OnStep (λ r t. t.vershow ≡ junk) (λ t. t.vershow ≡ junk) (λ r t. t.vershow ≡ junk) rest t
    → OnStep
        (λ r t. Unmentioned r × (t.vershow ≡ junk))
        (λ t. t.vershow ≡ junk)
        (λ r t. t.vershow ≡ junk)
        rest
        t
Unmentioned-skip junk rest (fail e) u k = tt
Unmentioned-skip junk rest (finish t) u k = k
Unmentioned-skip junk rest (next t) u k = (u, k)
Unmentioned-skip junk [] (skip t) u k = (tt, k)
Unmentioned-skip junk (a ∷ rest) (skip t) u k = (u.1, k)
Unmentioned-skip junk rest (found t) u k = k

-- Without the word `-showversion` the field `vershow` still holds what `malloc` left in it: `parse`
-- never gives it a default.
pub parse_vershow :
    (os : Os) (junk : Bool) (rest : List Bytes) (s : ArgData)
    → parse os junk rest ≡ parsed s
    → Unmentioned rest
    → s.vershow ≡ junk
unfolding defaults
parse_vershow os junk rest s h none_of =
    elim (parse_inv os junk rest s h (λ r t. Unmentioned r × (t.vershow ≡ junk))
      (λ t. t.vershow ≡ junk) (λ r t. t.vershow ≡ junk)
      (λ a r t u.
        Unmentioned-skip junk r (apply os (classify a) a r t) u.0.1 (
          apply-vershow junk os (classify a) a r t (λ e. cc (classify-showversion a e, u.0.0)) u.1))
      (λ t u. u.1) (none_of, refl)) [
        | inl kept ↦ kept
        | inr (t, left, same, kept, why) ↦ rw same kept
      ]
