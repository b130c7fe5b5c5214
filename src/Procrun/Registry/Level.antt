-- ===== src/Procrun/Registry/Level.antt =====
-- The keys that are opened and closed: none is left open, and none is closed twice.
use boundary_event_sdk.Prelude.{
  ℕ, ◌+◌, ◌≡◌, refl, Bool, true, false, not, ◌&&◌, ◌||◌, Option, none, some, List, [], ◌∷◌, Bytes,
  codes, ◌==◌, if◌then◌else◌, arith, if_elim, length, ltb,
}
use boundary_event_sdk.Procrun.Registry.{
  System, Registry, Options, next_answer, add_key, Progress, open_key, close_key, close_keys,
  keys_of, no_keys, open_params, open_pair, open_software, open_user, open_service, open_all,
  create_registry, root_name, resource_max,
}

unfoldable pub one : ℕ → ℕ → ℕ
one h k = if h == k then 1 else 0

-- How often a key is in a list
unfoldable pub times : ℕ → List ℕ → ℕ
unfolding one
times h [] = 0
times h (k ∷ ks) = one h k + times h ks

unfoldable pub held_one : ℕ → Option ℕ → ℕ
unfolding one
held_one h none = 0
held_one h (some k) = one h k

unfoldable pub held : ℕ → List (Option ℕ) → ℕ
unfolding held_one
held h [] = 0
held h (k ∷ ks) = held_one h k + held h ks

-- `h` was opened as often as it was closed and is in `ks`, beside what was open before.
unfoldable pub Accounted : (before h : ℕ) → List (Option ℕ) → System → Type 0
Accounted before h ks s = times h (s.opened) ≡ times h (s.closed) + (held h ks + before)

times-add_key :
    (h : ℕ) (k : Option ℕ) (ks : List ℕ) → times h (add_key k ks) ≡ held_one h k + times h ks
unfolding times held_one
times-add_key h none ks = omega arith
times-add_key h (some k) ks = refl

pub open_key-Accounted :
    (before h : ℕ) (create : Bool) (name : Bytes) (ks : List (Option ℕ)) (s : System)
    → Accounted before h ks s
    → Accounted before h ((open_key create name s).0 ∷ ks) ((open_key create name s).1)
unfolding Accounted open_key held
open_key-Accounted before h create name ks s a =
    rw (times-add_key h (next_answer (s.answers)) (s.opened)) (omega (arith, a))

pub close_key-Accounted :
    (before h : ℕ) (k : Option ℕ) (ks : List (Option ℕ)) (s : System)
    → Accounted before h (k ∷ ks) s
    → Accounted before h ks (close_key k s)
unfolding Accounted close_key times held held_one
close_key-Accounted before h none ks s a = omega (arith, a)
close_key-Accounted before h (some k) ks s a = omega (arith, a)

pub close_keys-Accounted :
    (before h : ℕ) (ks : List (Option ℕ)) (s : System)
    → Accounted before h ks s
    → Accounted before h [] (close_keys ks s)
unfolding close_keys
close_keys-Accounted before h [] s a = a
close_keys-Accounted before h (k ∷ ks) s a =
    close_keys-Accounted before h ks (close_key k s) (close_key-Accounted before h k ks s a)

open_params-Accounted :
    (before h : ℕ) (create : Bool) (k : Option ℕ) (ks : List (Option ℕ)) (s : System)
    → Accounted before h (k ∷ ks) s
    → Accounted before h
        ((open_params create k s).0.1 ∷ (open_params create k s).0.0 ∷ ks)
        ((open_params create k s).2)
unfolding open_params Accounted held held_one
open_params-Accounted before h create none ks s a = omega (arith, a)
open_params-Accounted before h create (some k) ks s a =
    open_key-Accounted before h create (codes "Parameters") (some k ∷ ks) s a

-- The keys of one group, before what was held
open_pair-Accounted :
    (before h : ℕ) (create params : Bool) (name : Bytes) (ks : List (Option ℕ)) (s : System)
    → Accounted before h ks s
    → Accounted before h
        ((open_pair create params name s).0.1 ∷ (open_pair create params name s).0.0 ∷ ks)
        ((open_pair create params name s).2)
unfolding open_pair
open_pair-Accounted before h create params name ks s a =
    open_params-Accounted before h params _ ks _ (open_key-Accounted before h create name ks s a)

-- What is accounted for in the midst of a creation
abbrev IsLevel : (before h : ℕ) → Progress → Type 0
IsLevel before h (going, r, s) = Accounted before h (keys_of r) s

abbrev IsFree : ℕ → Option ℕ → Type 0
IsFree h k = held_one h k ≡ 0

-- Before the keys of the service, and before those of the user
abbrev AtService : (before h : ℕ) → Progress → Type 0
AtService before h q = IsLevel before h q × IsFree h (q.1.serv_key) × IsFree h (q.1.sparam_key)

abbrev AtUser : (before h : ℕ) → Progress → Type 0
AtUser before h q = AtService before h q × IsFree h (q.1.user_key) × IsFree h (q.1.uparam_key)

open_software-AtUser :
    (before h : ℕ) (wanted : Bool) (name : Bytes) (q : Progress)
    → AtUser before h q
    → IsFree h (q.1.root_key)
    → IsFree h (q.1.rparam_key)
    → AtUser before h (open_software wanted name q)
unfolding open_software Accounted keys_of held
open_software-AtUser before h wanted name (going, r, s) ((a, f3, f4), f1, f2) e1 e2 =
    if_elim (AtUser before h) (going && wanted) _ _
      (λ _.
        let pair =
          open_pair-Accounted before h (r.can_create) (r.can_create) name (keys_of r) s a in
        ((omega (arith, pair, e1, e2), f3, f4), f1, f2))
      (λ _. ((a, f3, f4), f1, f2))

open_user-AtService :
    (before h : ℕ) (wanted : Bool) (name : Bytes) (q : Progress)
    → AtUser before h q
    → AtService before h (open_user wanted name q)
unfolding open_user Accounted keys_of held
open_user-AtService before h wanted name (going, r, s) ((a, f3, f4), f1, f2) =
    if_elim (AtService before h) (going && wanted) _ _
      (λ _.
        let pair =
          open_pair-Accounted before h (r.can_create) (r.can_create) name (keys_of r) s a in
        (omega (arith, pair, f1, f2), f3, f4))
      (λ _. (a, f3, f4))

open_service-IsLevel :
    (before h : ℕ) (wanted : Bool) (name : Bytes) (q : Progress)
    → AtService before h q
    → IsLevel before h (open_service wanted name q)
unfolding open_service Accounted keys_of held
open_service-IsLevel before h wanted name (going, r, s) (a, f3, f4) =
    if_elim (IsLevel before h) (going && wanted) _ _
      (λ _.
        let pair = open_pair-Accounted before h false (r.can_create) name (keys_of r) s a in
        omega (arith, pair, f3, f4))
      (λ _. a)

open_all-IsLevel :
    (before h : ℕ) (can_create : Bool) (o : Options) (root key : Bytes) (s : System)
    → times h (s.opened) ≡ times h (s.closed) + before
    → IsLevel before h (open_all can_create o root key s)
unfolding open_all
open_all-IsLevel before h can_create o root key s a =
    let start : Accounted before h (keys_of (no_keys can_create)) s =
      unfold Accounted keys_of held held_one in omega (arith, a) in
    let free : IsFree h none = unfold held_one in refl in
    open_service-IsLevel before h (o.service) _ _ (
      open_user-AtService before h (o.user) _ _ (
        open_software-AtUser before h (o.software) _ (true, no_keys can_create, s)
          ((start, free, free), free, free) free free))

-- The keys of a registry, if there is one
abbrev pub keys_of_handle : Option Registry → List (Option ℕ)
keys_of_handle none = []
keys_of_handle (some r) = keys_of r

-- If the handle can be made, each key that `apxCreateRegistryW` opens is closed again or in the registry
-- that it returns.
pub create_registry-Accounted :
    (before h : ℕ) (can_create : Bool) (root key : Option Bytes) (o : Options) (s : System)
    → times h (s.opened) ≡ times h (s.closed) + before
    → Accounted before h
        (keys_of_handle ((create_registry can_create root key o true s).0))
        ((create_registry can_create root key o true s).1)
unfolding create_registry
create_registry-Accounted before h can_create root none o s a =
    unfold Accounted held in omega (arith, a)
create_registry-Accounted before h can_create root (some key) o s a =
    let all = open_all-IsLevel before h can_create o (root_name root) key s a in
    let P = λ (r : Option Registry × System). Accounted before h (keys_of_handle (r.0)) (r.1) in
    if_elim P (ltb resource_max (length key) || ltb resource_max (length (root_name root))) _ _
      (λ _. unfold Accounted held in omega (arith, a))
      (λ _.
        if_elim P (not ((open_all can_create o (root_name root) key s).0)) _ _
          (λ _. close_keys-Accounted before h _ _ all) (λ _. all))
