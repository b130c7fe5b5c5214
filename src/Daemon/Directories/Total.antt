-- ===== src/Daemon/Directories/Total.antt =====
-- The recursion of `mkdir1`.
use boundary_event_sdk.Prelude.{
  ℕ, zero, suc, ◌<◌, ◌≡◌, refl, true, Option, none, some, [], ◌∷◌, Bytes, length, take, length-take,
  arith, inl, inr, Option-cases, is_some,
}
use boundary_event_sdk.Text.{strrchr}
use boundary_event_sdk.Daemon.Kernel.{Kernel}
use boundary_event_sdk.Daemon.Directories.{mkdir0, retry_if, missing, mkdir1_fuel}

strrchr-bound : (s : Bytes) (c n : ℕ) → strrchr s c ≡ some n → n < length s
unfolding strrchr
strrchr-bound [] c n h = cc
strrchr-bound (d ∷ s) c n h = elim (Option-cases (strrchr s c)) [
  | inl absent ↦ ground (arith, absent)
  | inr (m, at) ↦ ground (arith, at, strrchr-bound s c m at)
]

module _ (k : Kernel) where
  open k use {World}

  retry_if-ends :
      (name : Bytes) (perms : ℕ) (r : Option (ℕ × World))
      → is_some r ≡ true
      → is_some (retry_if k name perms r) ≡ true
  unfolding retry_if
  retry_if-ends name perms none h = cc
  retry_if-ends name perms (some r) h = refl

  missing-ends :
      (up : Bytes → World → Option (ℕ × World)) (name : Bytes) (perms : ℕ) (w : World)
      → ((n : ℕ) → n < length name → (v : World) → is_some (up (take n name) v) ≡ true)
      → is_some (missing k up name perms w) ≡ true
  unfolding missing
  missing-ends up name perms w ends = elim (Option-cases (strrchr name b'/')) [
    | inl absent ↦ rw (absent, missing) refl
    | inr (zero, at) ↦ rw (at, missing) refl
    | inr (suc n, at) ↦
        rw (at, missing)
          (retry_if-ends name perms _ (ends (suc n) (strrchr-bound name b'/' (suc n) at) w))
  ]

  -- With more fuel than the name has bytes `mkdir1` ends.
  pub mkdir1_fuel_total :
      (fuel : ℕ) (name : Bytes) (perms : ℕ) (w : World)
      → length name < fuel
      → is_some (mkdir1_fuel k fuel name perms w) ≡ true
  unfolding mkdir1_fuel
  mkdir1_fuel_total zero name perms w h = ground arith
  mkdir1_fuel_total (suc fuel) name perms w h = ground (
    arith,
    missing-ends (λ n v. mkdir1_fuel k fuel n perms v) name perms (mkdir0 k name perms w).1
        (λ n b v. mkdir1_fuel_total fuel (take n name) perms v (omega (arith, length-take n name))),
  )
