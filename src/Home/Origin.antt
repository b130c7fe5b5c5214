-- ===== src/Home/Origin.antt =====
-- Where a Java home comes from.
use boundary_event_sdk.Prelude.{
  ◌≡◌, ◌⊎◌, inl, inr, refl, true, false, Option, none, some, List, [], ◌∷◌, Bytes, arith,
  Bool-cases, Option-cases,
}
use boundary_event_sdk.Home.Locations.{location_home}
use boundary_event_sdk.Home.{Files, HomeData, build, unusable, first_home, find_at, home}
use boundary_event_sdk.Home.Libraries.{IsHome, build-IsHome}

abbrev pub In : Bytes → List Bytes → Type 0
In p [] = ⊥
In p (q ∷ qs) = (p ≡ q) ⊎ In p qs

module _ (files : Files) where
  open files use {getenv_java_home}

  own : (p : Bytes) (d : HomeData) → IsHome files p d → IsHome files d.path d
  own p d is = record {
    same_path = refl;
    is_directory = rw (is.same_path) (is.is_directory);
    all_files = is.all_files;
  }

  -- A list of places is searched from its front.
  first_home-In :
      (places : List Bytes) (d : HomeData)
      → first_home files places ≡ some d
      → In d.path places × IsHome files d.path d
  unfolding first_home
  first_home-In [] d h = cc
  first_home-In (p ∷ ps) d h = elim (Option-cases (build files p)) [
    | inl absent ↦
        let later : first_home files ps ≡ some d = ground (arith, absent) in
        (inr (first_home-In ps d later).0, (first_home-In ps d later).1)
    | inr (e, here) ↦
        let same : build files p ≡ some d = ground (arith, here) in
        let is = build-IsHome files p d same in (inl (is.same_path), own p d is)
  ]

  find_at-IsHome :
      (path : Option Bytes) (d : HomeData)
      → unusable files path ≡ false
      → find_at files path ≡ some d
      → (path ≡ some d.path) × IsHome files d.path d
  unfolding find_at unusable
  find_at-IsHome none d u h = cc
  find_at-IsHome (some p) d u h =
      let is = build-IsHome files p d h in (rw (is.same_path) refl, own p d is)

  -- The Java home is the one of the command line if that names one, else that of the environment if that
  -- names one, and else one of the usual places; it is a directory, and its libraries are files.
  pub home_origin :
      (path : Option Bytes) (d : HomeData)
      → home files path ≡ some d
      → ((path ≡ some d.path)
          ⊎ (((unusable files path ≡ true) × (getenv_java_home ≡ some d.path))
              ⊎ ((unusable files path ≡ true)
                  × (unusable files getenv_java_home ≡ true)
                  × In d.path location_home)))
        × IsHome files d.path d
  unfolding home
  home_origin path d h = elim (Bool-cases (unusable files path)) [
    | inl unnamed ↦ elim (Bool-cases (unusable files getenv_java_home)) [
      | inl unset ↦
          let found = first_home-In location_home d (ground (arith, unnamed, unset)) in
          (inr (inr (unnamed, unset, found.0)), found.1)
      | inr set ↦
          let found = find_at-IsHome getenv_java_home d set (ground (arith, unnamed, set)) in
          (inr (inl (unnamed, found.0)), found.1)
    ]
    | inr named ↦
        let found = find_at-IsHome path d named (ground (arith, named)) in (inl (found.0), found.1)
  ]
