-- ===== src/Replace/Reads.antt =====
-- Bytes in memory with no claim about what follows them.
use native.Mathlib.Nat.{add-zero, add-suc, suc-add}
use boundary_event_sdk.Prelude.{
  ℕ, zero, suc, ◌+◌, ◌<◌, ◌≡◌, ◌≢◌, ◌∙◌, [], ◌∷◌, ◌++◌, Bytes, length, take, inl, arith,
}
use boundary_event_sdk.Replace.Memory.{Mem, update, put_bytes, put_bytes-other, NoNul, Holds}

abbrev pub Reads : Mem → ℕ → Bytes → Type 0
Reads f p [] = Unit {0}
Reads f p (c ∷ s) = (f p ≡ c) × (c ≢ 0) × Reads f (suc p) s

pub Reads-take : (k : ℕ) (f : Mem) (p : ℕ) (s : Bytes) → Holds f p s → Reads f p (take k s)
Reads-take zero f p s h = tt
Reads-take (suc k) f p [] h = tt
Reads-take (suc k) f p (c ∷ s) h = (h.0, h.1, Reads-take k f (suc p) s h.2)

pub Reads-put_bytes : (s : Bytes) (f : Mem) (p : ℕ) → NoNul s → Reads (put_bytes f p s) p s
unfolding put_bytes
Reads-put_bytes [] f p n = tt
Reads-put_bytes (c ∷ s) f p n = (
  put_bytes-other s (update f p c) (suc p) p (inl (omega arith)) ∙ ground arith,
  n.0,
  Reads-put_bytes s (update f p c) (suc p) n.1,
)

pub Reads-same :
    (s : Bytes) (f g : Mem) (p : ℕ)
    → ((i : ℕ) → i < p + length s → g i ≡ f i)
    → Reads f p s
    → Reads g p s
Reads-same [] f g p e h = tt
Reads-same (c ∷ s) f g p e h =
    (e p (omega arith) ∙ h.0, h.1, Reads-same s f g (suc p) (λ i lt. e i (omega arith)) h.2)

pub Reads-append :
    (s t : Bytes) (f : Mem) (p : ℕ) → Reads f p s → Holds f (p + length s) t → Holds f p (s ++ t)
Reads-append [] t f p r h = rw add-zero at h
Reads-append (c ∷ s) t f p r h =
    (r.0, r.1, Reads-append s t f (suc p) r.2 (rw (add-suc, ← suc-add) at h))
