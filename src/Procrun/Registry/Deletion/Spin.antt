-- ===== src/Procrun/Registry/Deletion/Spin.antt =====
-- Enumerations that fail.
use boundary_event_sdk.Prelude.{
  ℕ, zero, suc, ◌≡◌, ◌≢◌, ◌⊎◌, inl, inr, refl, false, none, some, Bytes, arith, ◌==◌,
}
use boundary_event_sdk.Procrun.Registry.Deletion.{
  Keys, Calls, delete_recursive, turns, no_more_items, file_not_found,
}

differs : (a b : ℕ) → a ≢ b → (a == b) ≡ false
differs a b h = ground (arith, h)

-- A name that is not there
delete_recursive_nothing :
    (c : Calls) (f : ℕ) (buff : Bytes) (k : Keys) (n : Bytes)
    → (c.delete_key k n).0 ≢ 0
    → (c.delete_key k n).1 ≡ k
    → c.open_key k n ≡ file_not_found
    → (delete_recursive c f buff k n ≡ none) ⊎ (delete_recursive c f buff k n ≡ some (0, k))
unfolding delete_recursive
delete_recursive_nothing c zero buff k n kept same missing = inl refl
delete_recursive_nothing c (suc f) buff k n kept same missing =
    inr (rw (differs ((c.delete_key k n).0) 0 kept, same, missing) refl)

-- If the enumeration of a key fails, and not because it is at its end, the name that the buffer happens to
-- hold is deleted in its place; if there is no such key that counts as deleted, and the loop never ends.
pub turns_spin :
    (c : Calls) (f : ℕ) (buff : Bytes) (ks : Keys) (n : Bytes) (k : Keys)
    → (c.enum_key k).0 ≢ 0
    → (c.enum_key k).0 ≢ no_more_items
    → (c.delete_key k buff).0 ≢ 0
    → (c.delete_key k buff).1 ≡ k
    → c.open_key k buff ≡ file_not_found
    → turns c f buff ks n k ≡ none
unfolding delete_recursive turns
turns_spin c zero buff ks n k failed on kept same missing = refl
turns_spin c (suc f) buff ks n k failed on kept same missing =
    rw (differs ((c.enum_key k).0) 0 failed, differs ((c.enum_key k).0) no_more_items on)
      (elim (delete_recursive_nothing c f buff k buff kept same missing) [
        | inl e ↦ rw e refl
        | inr e ↦
            rw (e, differs ((c.enum_key k).0) 0 failed)
              (turns_spin c f buff ks n k failed on kept same missing)
      ])
