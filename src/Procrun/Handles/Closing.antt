-- ===== src/Procrun/Handles/Closing.antt =====
-- What the closing of a pool closes.
use boundary_event_sdk.Prelude.{
  ℕ, zero, suc, ◌+◌, ◌<◌, ◌≡◌, ◌≢◌, refl, Bool, true, false, Option, none, some, List, [], ◌∷◌,
  ◌++◌, ◌==◌, if◌then◌else◌, length, arith, if_elim, ==_iff,
}
use boundary_event_sdk.Procrun.Handles.{
  Handle, Pool, pool, Pools, no_pools, more_pools, Called, Event, called, thread_ended,
  heap_destroyed, hook_calls, close_calls, close_first, wm_close, size_after, heap_calls,
  finish_pool, pool_callback, pools_callback, type_invalid, type_pool,
}

-- A weight of events, over a list of them
unfoldable pub tally : (Event → ℕ) → List Event → ℕ
tally f [] = 0
tally f (e ∷ es) = f e + tally f es

tally-append : (f : Event → ℕ) (a b : List Event) → tally f (a ++ b) ≡ tally f a + tally f b
unfolding tally
tally-append f [] b = omega arith
tally-append f (e ∷ a) b = omega (arith, tally-append f a b)

-- The weight of what a handle and a pool have: a callback for each handle and its thread, and the heaps
-- that pools own.
abbrev pub handle_weight : (Event → ℕ) → Handle → ℕ
handle_weight f h =
    f (called (h.address)) + (if h.has_event then f (thread_ended (h.address)) else 0)

abbrev pub handles_weight : (Event → ℕ) → List Handle → ℕ
handles_weight f [] = 0
handles_weight f (h ∷ hs) = handle_weight f h + handles_weight f hs

unfoldable mutual
  pub pool_weight : (Event → ℕ) → Pool → ℕ
  pool_weight f (pool a t heap size hs ps) =
      pools_weight f ps + (handles_weight f hs + (if heap then f (heap_destroyed a) else 0))

  pub pools_weight : (Event → ℕ) → Pools → ℕ
  pools_weight f no_pools = 0
  pools_weight f (more_pools p ps) = pool_weight f p + pools_weight f ps

-- The types are those of handles and pools that are open, no handle has a hook, and no pool has as many handles
-- as the fuel.
abbrev pub AllValid : List Handle → Type 0
AllValid [] = Unit {0}
AllValid (h ∷ hs) = (h.type ≢ type_invalid) × (h.hooks ≡ []) × AllValid hs

unfoldable mutual
  pub IsOpen : (fuel : ℕ) → Pool → Type 0
  IsOpen fuel (pool a t heap size hs ps) =
      (t ≡ type_pool) × AllValid hs × (length hs < fuel) × AreOpen fuel ps

  pub AreOpen : (fuel : ℕ) → Pools → Type 0
  AreOpen fuel no_pools = Unit {0}
  AreOpen fuel (more_pools p ps) = IsOpen fuel p × AreOpen fuel ps

-- No handle is left in a pool and the pools in it.
unfoldable mutual
  pub IsEmptied : Pool → Type 0
  IsEmptied (pool a t heap size hs ps) = (size ≡ 0) × (hs ≡ []) × AreEmptied ps

  pub AreEmptied : Pools → Type 0
  AreEmptied no_pools = Unit {0}
  AreEmptied (more_pools p ps) = IsEmptied p × AreEmptied ps

tally-thread :
    (f : Event → ℕ) (b : Bool) (a : ℕ)
    → tally f (if b then thread_ended a ∷ [] else []) ≡ (if b then f (thread_ended a) else 0)
unfolding tally
tally-thread f true a = omega arith
tally-thread f false a = refl

-- The calls for a handle without hooks
abbrev plain_calls : Handle → List Event
plain_calls h = called (h.address) ∷ (if h.has_event then thread_ended (h.address) ∷ [] else [])

tally-plain_calls : (f : Event → ℕ) (h : Handle) → tally f (plain_calls h) ≡ handle_weight f h
unfolding tally
tally-plain_calls f h = rw (tally-thread f (h.has_event) (h.address)) refl

close_calls-plain : (h : Handle) → h.hooks ≡ [] → close_calls h ≡ some (plain_calls h)
unfolding close_calls hook_calls
close_calls-plain h e = rw e refl

-- Enough fuel closes every handle of a list.
close_first-weight :
    (fuel : ℕ) (hs : List Handle)
    → AllValid hs
    → length hs < fuel
    → (es : List Event) × (close_first fuel hs ≡ some es)
      × ((f : Event → ℕ) → tally f es ≡ handles_weight f hs)
unfolding close_first tally
close_first-weight zero hs v enough = absurd (omega arith)
close_first-weight (suc n) [] v enough = ([], refl, λ f. refl)
close_first-weight (suc n) (h ∷ hs) v enough =
    let rest = close_first-weight n hs v.2 (omega (arith, enough)) in
    (
      plain_calls h ++ rest.0,
      if_elim (λ (o : Option (List Event)). o ≡ some (plain_calls h ++ rest.0))
          (h.type == type_invalid) _ _ (λ z. absurd (v.0 ((==_iff (h.type) type_invalid).0 z)))
          (λ _. rw (close_calls-plain h v.1, rest.1) refl),
      λ f. rw (tally-append f, tally-plain_calls f h, rest.2 f) refl,
    )

tally-heap_calls :
    (f : Event → ℕ) (b : Bool) (a : ℕ)
    → tally f (heap_calls wm_close b a) ≡ (if b then f (heap_destroyed a) else 0)
unfolding tally heap_calls
tally-heap_calls f true a = omega arith
tally-heap_calls f false a = refl

is_other : (a b : ℕ) → (a == b) ≡ false → a ≢ b
is_other a b h e = ground (arith, h, e)

mutual
  unfolding pool_callback pool_weight IsOpen IsEmptied finish_pool size_after tally

  pool_callback-weight :
      (fuel : ℕ) (p : Pool)
      → IsOpen fuel p
      → (es : List Event) × ((p' : Pool) × (pool_callback fuel wm_close p ≡ some (es, p'))
          × IsEmptied p'
          × ((f : Event → ℕ) → tally f es ≡ pool_weight f p))
  pool_callback-weight fuel (pool a t heap size hs ps) (is_pool, v, enough, o) =
      let below = pools_callback-weight fuel ps o in
      let own = close_first-weight fuel hs v enough in
      (
        below.0 ++ (own.0 ++ heap_calls wm_close heap a),
        (
          pool a t heap 0 [] (below.1.0),
          if_elim
              (λ (o : Option Called).
                o
                ≡ some (
                  below.0 ++ (own.0 ++ heap_calls wm_close heap a),
                  pool a t heap 0 [] (below.1.0),
                ))
              (t == type_pool) _ _ (λ _. rw (below.1.1, own.1) refl)
              (λ z. absurd (is_other t type_pool z is_pool)),
          (refl, refl, below.1.2),
          λ f.
              rw (tally-append f, tally-append f, below.1.3 f, own.2 f, tally-heap_calls f heap a)
                refl,
        ),
      )

  pools_callback-weight :
      (fuel : ℕ) (ps : Pools)
      → AreOpen fuel ps
      → (es : List Event) × ((ps' : Pools) × (pools_callback fuel wm_close ps ≡ some (es, ps'))
          × AreEmptied ps'
          × ((f : Event → ℕ) → tally f es ≡ pools_weight f ps))
  pools_callback-weight fuel no_pools o = ([], (no_pools, refl, tt, λ f. refl))
  pools_callback-weight fuel (more_pools p ps) (o, os) =
      let first = pool_callback-weight fuel p o in
      let others = pools_callback-weight fuel ps os in
      (
        first.0 ++ others.0,
        (
          more_pools (first.1.0) (others.1.0),
          rw (first.1.1, others.1.1) refl,
          (first.1.2, others.1.2),
          λ f. rw (tally-append f, first.1.3 f, others.1.3 f) refl,
        ),
      )

-- Where all handles and pools are open and no handle has a hook, closing a pool ends: no handle is left in it or
-- in a pool in it, and over every weighting of the events, those of the closing weigh what the callbacks and
-- threads of all its handles and the heaps of its pools do, each once.
pub pool_callback_closes :
    (fuel : ℕ) (p : Pool)
    → IsOpen fuel p
    → (es : List Event) × ((p' : Pool) × (pool_callback fuel wm_close p ≡ some (es, p'))
        × IsEmptied p'
        × ((f : Event → ℕ) → tally f es ≡ pool_weight f p))
pool_callback_closes fuel p o = pool_callback-weight fuel p o

-- A handle whose type is invalid is never taken out of its pool: the loop does not end.
close_first_stuck :
    (fuel : ℕ) (h : Handle) (hs : List Handle)
    → h.type ≡ type_invalid
    → close_first fuel (h ∷ hs) ≡ none
unfolding close_first
close_first_stuck zero h hs e = refl
close_first_stuck (suc n) h hs e = ground (arith, e, close_first_stuck n h hs e)

-- A handle with a hook is not closed cleanly.
close_first_hooked :
    (fuel : ℕ) (h : Handle) (hs : List Handle) (k : ℕ) (ks : List ℕ)
    → h.hooks ≡ k ∷ ks
    → close_first fuel (h ∷ hs) ≡ none
unfolding close_first close_calls hook_calls
close_first_hooked zero h hs k ks e = refl
close_first_hooked (suc n) h hs k ks e =
    if_elim (λ (o : Option (List Event)). o ≡ none) (h.type == type_invalid) _ _
      (λ _. close_first_hooked n h hs k ks e) (λ _. rw e refl)
