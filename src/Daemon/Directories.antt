-- ===== src/Daemon/Directories.antt =====
-- `mkdir0`, `mkdir1` and `mkdir2` of src/native/unix/native/jsvc-unix.c: make the directories above a file.
pub mod Total
use boundary_event_sdk.Prelude.{
  ℕ, zero, suc, ◌+◌, ◌≤◌, ◌<◌, ◌≡◌, refl, Bool, true, false, Option, none, some, [], ◌∷◌, Bytes,
  length, take, length-take, ◌==◌, if◌then◌else◌, arith, ◌⊎◌, inl, inr, Option-cases,
}
use boundary_event_sdk.Text.{strrchr}
use boundary_event_sdk.Daemon.Kernel.{Kernel, eexist, enoent, enomem}

module _ (k : Kernel) where
  open k use {World, mkdir}

  -- 0, or `errno`
  unfoldable pub mkdir0 : Bytes → (perms : ℕ) → World → ℕ × World
  mkdir0 name perms w = let (r, w') = mkdir name perms w in (elim r [ none ↦ 0 | some e ↦ e ], w')

  -- "Try again, now with parents created"
  unfoldable pub retry : Bytes → (perms : ℕ) → ℕ × World → ℕ × World
  retry name perms (rc, w) = if rc == 0 then mkdir0 name perms w else (rc, w)

  unfoldable pub retry_if : Bytes → (perms : ℕ) → Option (ℕ × World) → Option (ℕ × World)
  retry_if name perms none = none
  retry_if name perms (some r) = some (retry name perms r)

  -- "Missing an intermediate dir": `up` makes the directory above.
  unfoldable pub missing :
      (up : Bytes → World → Option (ℕ × World)) → Bytes → (perms : ℕ) → World → Option (ℕ × World)
  missing up name perms w = elim (strrchr name b'/') [
    | none ↦ some (enoent, w)
    | some zero ↦ some (enoent, w)
    | some (suc n) ↦ retry_if name perms (up (take (suc n) name) w)
  ]

  -- `mkdir1`, each call on a shorter name; `none`: the fuel ran out
  unfoldable pub mkdir1_fuel : ℕ → Bytes → (perms : ℕ) → World → Option (ℕ × World)
  mkdir1_fuel zero name perms w = none
  mkdir1_fuel (suc fuel) name perms w =
      let (rc, w') = mkdir0 name perms w in
      let above = missing (λ n v. mkdir1_fuel fuel n perms v) name perms w' in
      if rc == eexist then some (0, w') else if rc == enoent then above else some (rc, w')

  -- The fuel is one more than the length of the name.
  unfoldable pub mkdir1 : Bytes → (perms : ℕ) → World → ℕ × World
  mkdir1 name perms w = elim (mkdir1_fuel (suc (length name)) name perms w) [
    | some r ↦ r
    | none ↦ (enomem, w)
  ]

  -- `mkdir2`: the directory that holds `name`, if one is written
  unfoldable pub mkdir2 : Bytes → (perms : ℕ) → World → ℕ × World
  mkdir2 name perms w = elim (strrchr name b'/') [
    | none ↦ (0, w)
    | some zero ↦ (0, w)
    | some (suc n) ↦ mkdir1 (take (suc n) name) perms w
  ]
