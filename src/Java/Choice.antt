-- ===== src/Java/Choice.antt =====
-- Which library is picked.
use boundary_event_sdk.Prelude.{
  ◌≡◌, ◌⊎◌, inl, inr, refl, true, Option, none, some, List, [], ◌∷◌, Bytes, str_eq_sound, arith,
  Option-cases, Bool-cases,
}
use boundary_event_sdk.Arguments.{ArgData}
use boundary_event_sdk.Home.{Files, HomeJvm, HomeData, checkfile, home}
use boundary_event_sdk.Home.Libraries.{AllFiles}
use boundary_event_sdk.Home.Origin.{home_origin}
use boundary_event_sdk.Java.{is_named, find_named, first_library, java_library}

-- A VM of the list
abbrev pub Listed : HomeJvm → List HomeJvm → Type 0
Listed j [] = ⊥
Listed j (k ∷ ks) = (j ≡ k) ⊎ Listed j ks

is_named_sound : (wanted : Bytes) (j : HomeJvm) → is_named wanted j ≡ true → j.name ≡ some wanted
is_named_sound wanted j h = elim (Option-cases (j.name)) [
  | inl unnamed ↦ ground (arith, unnamed)
  | inr (n, named) ↦ ground (arith, named, str_eq_sound wanted n)
]

find_named-Listed :
    (wanted : Bytes) (js : List HomeJvm) (libf : Bytes)
    → find_named wanted js ≡ some libf
    → (j : HomeJvm) × Listed j js × (j.name ≡ some wanted) × (j.libr ≡ libf)
unfolding find_named
find_named-Listed wanted [] libf h = cc
find_named-Listed wanted (j ∷ js) libf h = elim (Bool-cases (is_named wanted j)) [
  | inl here ↦ (j, inl refl, is_named_sound wanted j here, ground (arith, here))
  | inr not_here ↦
      let (k, listed, named, same) = find_named-Listed wanted js libf (ground (arith, not_here)) in
      (k, inr listed, named, same)
]

module _ (files : Files) where
  Listed-file :
      (j : HomeJvm) (js : List HomeJvm)
      → AllFiles files js
      → Listed j js
      → checkfile files j.libr ≡ true
  Listed-file j [] all here = absurd here
  Listed-file j (k ∷ ks) all (inl e) = rw e (all.0)
  Listed-file j (k ∷ ks) all (inr later) = Listed-file j ks (all.1) later

  first_library-file :
      (js : List HomeJvm) (libf : Bytes)
      → AllFiles files js
      → first_library js ≡ some libf
      → checkfile files libf ≡ true
  first_library-file [] libf all h = cc
  first_library-file (j ∷ js) libf all h = ground (arith, all.0)

  -- The library that is picked in a Java home that was found is a file; if a VM is asked for by its
  -- name, the library is that of a VM of this name.
  pub java_library_file :
      (args : ArgData) (path : Option Bytes) (d : HomeData) (libf : Bytes)
      → home files path ≡ some d
      → java_library args d ≡ some libf
      → (checkfile files libf ≡ true)
        × ((args.name ≡ none)
            ⊎ ((j : HomeJvm) × Listed j d.jvms × (j.name ≡ args.name) × (j.libr ≡ libf)))
  unfolding java_library
  java_library_file args path d libf located h =
      let all = (home_origin files path d located).1.all_files in
      elim (Option-cases (args.name)) [
        | inl unnamed ↦ (first_library-file d.jvms libf all (ground (arith, unnamed)), inl unnamed)
        | inr (wanted, named) ↦
            let (j, listed, its, same) =
              find_named-Listed wanted d.jvms libf (ground (arith, named)) in
            (rw (← same) (Listed-file j d.jvms all listed), inr (j, listed, rw named its, same))
      ]
