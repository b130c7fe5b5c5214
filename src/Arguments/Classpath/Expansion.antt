-- ===== src/Arguments/Classpath/Expansion.antt =====
-- What `eval_cpath` makes of a class path.
use mathlib.Core.List.{append_assoc, append-nil}
use boundary_event_sdk.Prelude.{
  ℕ, ◌+◌, ◌-◌, ◌≡◌, ◌∙◌, refl, ap, true, false, none, some, List, [], ◌∷◌, ◌++◌, Bytes, codes,
  length, ltb, if◌then◌else◌, Bool-cases, Option-cases, inl, inr, Option, arith,
}
use boundary_event_sdk.Arguments.Classpath.{
  Os, path_max, java_classpath, bytes_of, parts, ends_with_star, memstrcat, add_paths, eval_ppath,
  open_part, eval_parts, or_copy, eval_cpath,
}

-- The texts with a colon between each two.
abbrev pub follow : List Bytes → Bytes
follow [] = []
follow (p ∷ ps) = codes ":" ++ (p ++ follow ps)

abbrev pub join : List Bytes → Bytes
join [] = []
join (p ∷ ps) = p ++ follow ps

abbrev pub joined : List Bytes → Bytes → Bytes
joined [] last = last
joined (p ∷ ps) last = p ++ (codes ":" ++ joined ps last)

-- The jars that a part ending in an asterisk stands for: none, if nothing matches. A pattern that is
-- too long for a path, and a part with no asterisk, stand for themselves.
unfoldable pub matches : Option (List Bytes × Bytes) → Bytes
matches none = []
matches (some (paths, last)) = joined paths last

module _ (os : Os) where
  unfoldable pub expand : Bytes → Bytes
  unfolding ends_with_star matches
  expand p =
      if ends_with_star p
      then (if ltb (path_max + 1 - 5) (length p) then p else matches (os.glob (p ++ codes ".jar")))
      else p

  -- An empty last part is dropped.
  unfoldable pub expanded : List Bytes → List Bytes
  unfolding expand
  expanded [] = []
  expanded ([] ∷ []) = []
  expanded ((c ∷ p) ∷ []) = expand (c ∷ p) ∷ []
  expanded (p ∷ q ∷ ps) = expand p ∷ expanded (q ∷ ps)

  module _ (memory : (n : ℕ) → os.realloc n ≡ true) where
    memstrcat-some :
        (ptr str add : Option Bytes)
        → memstrcat os ptr str add ≡ some (bytes_of ptr ++ (bytes_of str ++ bytes_of add))
    unfolding memstrcat
    memstrcat-some ptr str add = rw memory

    add_paths-some :
        (ps : List Bytes) (g last : Bytes)
        → add_paths os (some g) ps last ≡ some (g ++ joined ps last)
    unfolding add_paths
    add_paths-some [] g last = rw (memstrcat-some, append-nil)
    add_paths-some (p ∷ ps) g last =
        rw (add_paths, memstrcat-some)
          (add_paths-some ps (g ++ (p ++ codes ":")) last ∙ simp append_assoc)

    eval_ppath-some :
        (g p : Bytes) → ends_with_star p ≡ true → eval_ppath os (some g) p ≡ some (g ++ expand p)
    unfolding eval_ppath expand matches
    eval_ppath-some g p star = elim (Option-cases (os.glob (p ++ codes ".jar"))) [
      | inl no_match ↦
          ground (arith, memstrcat-some (some g) (some p) none, append-nil g, append-nil p)
      | inr ((paths, last), found) ↦
          ground (
            arith,
            memstrcat-some (some g) (some p) none,
            append-nil p,
            add_paths-some paths g last,
          )
    ]

    expand_plain : (p : Bytes) → ends_with_star p ≡ false → expand p ≡ p
    unfolding expand
    expand_plain p plain = rw plain

    open_part-some : (g : Bytes) → open_part os (some g) ≡ some (g ++ codes ":")
    unfolding open_part
    open_part-some g =
        rw memstrcat-some (ap (λ (t : Bytes). some (g ++ t)) (append-nil (codes ":")))

    open_part-none : open_part os none ≡ some java_classpath
    unfolding open_part
    open_part-none = rw memstrcat-some (ap some (append-nil java_classpath))

    -- Either way of adding a part to `h` adds its expansion.
    plain_part :
        (h p : Bytes)
        → ends_with_star p ≡ false
        → memstrcat os (some h) (some p) none ≡ some (h ++ expand p)
    plain_part h p plain = rw (memstrcat-some, expand_plain p plain, append-nil)

    eval_parts-last :
        (gcp : Option Bytes) (h : Bytes) (c : ℕ) (p : Bytes)
        → open_part os gcp ≡ some h
        → eval_parts os gcp ((c ∷ p) ∷ []) ≡ some (some (h ++ expand (c ∷ p)))
    unfolding eval_parts
    eval_parts-last gcp h c p e = elim (Bool-cases (ends_with_star (c ∷ p))) [
      | inl star ↦ ground (arith, eval_ppath-some h (c ∷ p) star)
      | inr plain ↦ ground (arith, plain_part h (c ∷ p) plain)
    ]

    eval_parts-more :
        (gcp : Option Bytes) (h p q : Bytes) (ps : List Bytes)
        → open_part os gcp ≡ some h
        → eval_parts os gcp (p ∷ q ∷ ps) ≡ eval_parts os (some (h ++ expand p)) (q ∷ ps)
    unfolding eval_parts
    eval_parts-more gcp h p q ps e = elim (Bool-cases (ends_with_star p)) [
      | inl star ↦ ground (arith, eval_ppath-some h p star)
      | inr plain ↦ ground (arith, plain_part h p plain)
    ]

    eval_parts-some :
        (ps : List Bytes) (g : Bytes)
        → eval_parts os (some g) ps ≡ some (some (g ++ follow (expanded ps)))
    unfolding eval_parts expanded
    eval_parts-some [] g = rw (eval_parts, append-nil)
    eval_parts-some ([] ∷ []) g = rw (eval_parts, append-nil)
    eval_parts-some ((c ∷ p) ∷ []) g =
        eval_parts-last (some g) (g ++ codes ":") c p (open_part-some g)
        ∙ simp (append-nil, append_assoc)
    eval_parts-some (p ∷ q ∷ ps) g =
        eval_parts-more (some g) (g ++ codes ":") p q ps (open_part-some g)
        ∙ eval_parts-some (q ∷ ps) ((g ++ codes ":") ++ expand p)
        ∙ simp append_assoc

    copied :
        (cp : Bytes) (ps : List Bytes)
        → parts cp ≡ ps
        → or_copy os cp (eval_parts os none ps) ≡ java_classpath ++ join (expanded ps)
    unfolding or_copy expanded eval_parts
    copied cp [] e = rw (eval_parts, e)
    copied cp ([] ∷ []) e = rw (eval_parts, e)
    copied cp ((c ∷ p) ∷ []) e =
        rw (eval_parts-last none java_classpath c p open_part-none) (simp append-nil)
    copied cp (p ∷ q ∷ ps) e =
        rw (eval_parts-more none java_classpath p q ps open_part-none, eval_parts-some (q ∷ ps))
          (simp append_assoc)

    -- With memory to be had, the JVM gets every part of the class path in its place, each pattern
    -- that ends in an asterisk replaced by the jars it matches, between single colons.
    pub eval_cpath_expands :
        (cp : Bytes) → eval_cpath os cp ≡ some (java_classpath ++ join (expanded (parts cp)))
    unfolding eval_cpath
    eval_cpath_expands cp =
        ground
          (arith, memstrcat-some none (some java_classpath) (some cp), copied cp (parts cp) refl)
