-- ===== src/Procrun/Browse/Listed.antt =====
-- What `apxServiceBrowse` shows where the registry answers.
use boundary_event_sdk.Prelude.{
  ℕ, suc, ◌+◌, ◌≡◌, ◌<◌, refl, ap, ◌∙◌, Bool, true, false, not, Option, none, some, List, [], ◌∷◌,
  Bytes, length, get_elem?, ltb, if◌then◌else◌, arith, if_elim, Bool-cases, inl, inr,
}
use boundary_event_sdk.Procrun.Browse.{
  Config, Service, Root, Enum, next_service, registry_enum_services, Patterns, matches, selected,
  Listing, shown_or_not, after_enum, browse_loop, browse,
}

-- Whether a service is selected: not, if it cannot be opened
abbrev pub chosen :
    (match : Bytes → Bytes → Option Bool) → Patterns → (name : Bytes) → Option Config → Option Bool
chosen match p name none = some false
chosen match p name (some c) = selected match p name c

-- The key of each service opens, and `pick` tells whether it is selected.
abbrev pub Chosen :
    (match : Bytes → Bytes → Option Bool)
    → Patterns
    → (pick : Service → Bool) → List Service
    → Type 0
Chosen match p pick [] = Unit {0}
Chosen match p pick (s ∷ ss) =
    (s.key_opens ≡ true)
    × (chosen match p (s.name) (s.config) ≡ some (pick s))
    × Chosen match p pick ss

-- The services that are picked, with their numbers
abbrev pub numbered : (pick : Service → Bool) (found : ℕ) → List Service → List (ℕ × Service)
numbered pick found [] = []
numbered pick found (s ∷ ss) =
    let taken = numbered pick (suc found) ss in
    let skipped = numbered pick found ss in if pick s then (found, s) ∷ taken else skipped

-- The enumeration at the service of the number `i`, with the key open, or closed at the end
abbrev pub at_index : (is_open : Bool) (i n : ℕ) → Enum
at_index is_open i n = record { is_open = is_open; index = i; count = n }

next_service-some :
    (r : Root) (i n : ℕ) (s : Service)
    → i < n
    → r.enum_key i ≡ some s
    → s.key_opens ≡ true
    → next_service r (at_index true i n) ≡ (some s, at_index true (suc i) n)
unfolding next_service
next_service-some r i n s inside found opens =
    if_elim (λ (q : Option Service × Enum). q ≡ (some s, at_index true (suc i) n)) (not (ltb i n)) _
      _ (λ past. absurd (ground (arith, past, inside))) (λ _. rw (found, opens) refl)

next_service-none :
    (r : Root) (i n : ℕ) → i ≡ n → next_service r (at_index true i n) ≡ (none, at_index false n n)
unfolding next_service
next_service-none r i n e =
    if_elim (λ (q : Option Service × Enum). q ≡ (none, at_index false n n)) (not (ltb i n)) _ _
      (λ _. rw e refl) (λ inside. absurd (ground (arith, inside, e)))

registry_enum_services-first :
    (r : Root) (n longest : ℕ)
    → r.opens ≡ true
    → r.info ≡ some (n, longest)
    → ltb 256 longest ≡ false
    → registry_enum_services r (at_index false 0 0) ≡ next_service r (at_index true 0 n)
unfolding registry_enum_services
registry_enum_services-first r n longest opens info short = rw (opens, info, short) refl

registry_enum_services-long :
    (r : Root) (n longest : ℕ)
    → r.opens ≡ true
    → r.info ≡ some (n, longest)
    → ltb 256 longest ≡ true
    → registry_enum_services r (at_index false 0 0) ≡ (none, at_index false 0 n)
unfolding registry_enum_services
registry_enum_services-long r n longest opens info long = rw (opens, info, long) refl

module _ (match : Bytes → Bytes → Option Bool) (p : Patterns) (pick : Service → Bool)
    (shows : Service → ℕ → Bool) (r : Root)
    (all_shown : (s : Service) (n : ℕ) → shows s n ≡ true) where
  shown_or_not-listed :
      (found : ℕ) (s : Service) (e : Enum) (same next : Option Listing) (ss : List Service)
      (last : Enum)
      → same ≡ some (numbered pick found ss, last)
      → next ≡ some (numbered pick (suc found) ss, last)
      → shown_or_not shows found s e same next (some (pick s))
        ≡ some (numbered pick found (s ∷ ss), last)
  unfolding shown_or_not
  shown_or_not-listed found s e same next ss last skipped taken = elim (Bool-cases (pick s)) [
    | inl picked ↦ rw (picked, all_shown s found, taken) refl
    | inr left ↦ rw (left, skipped) refl
  ]

  shown_or_not-config :
      (found : ℕ) (s : Service) (e : Enum) (same next : Option Listing) (c : Option Config)
      (b : Bool)
      → chosen match p (s.name) c ≡ some b
      → (elim c as (λ _. Option Listing) [
        | none ↦ same
        | some c ↦ shown_or_not shows found s e same next (selected match p (s.name) c)
      ])
        ≡ shown_or_not shows found s e same next (some b)
  unfolding shown_or_not
  shown_or_not-config found s e same next none true h = absurd (ground (arith, h))
  shown_or_not-config found s e same next none false h = refl
  shown_or_not-config found s e same next (some c) b h = rw h refl

  browse_loop-listed :
      (ss : List Service) (i n found : ℕ)
      → n ≡ i + length ss
      → ((j : ℕ) → r.enum_key (i + j) ≡ get_elem? ss j)
      → Chosen match p pick ss
      → browse_loop match p shows r (suc (length ss)) found (at_index true i n)
        ≡ some (numbered pick found ss, at_index false n n)
  unfolding browse_loop after_enum registry_enum_services
  browse_loop-listed [] i n found size keys c =
      ap (after_enum match p shows (browse_loop match p shows r 0) found)
        (next_service-none r i n (omega (arith, size)))
  browse_loop-listed (s ∷ ss) i n found size keys c =
      let same = browse_loop match p shows r (suc (length ss)) found (at_index true (suc i) n) in
      let next =
        browse_loop match p shows r (suc (length ss)) (suc found) (at_index true (suc i) n) in
      let first : r.enum_key i ≡ some s = ap (r.enum_key) (omega arith) ∙ keys 0 in
      let size' : n ≡ suc i + length ss = omega (arith, size) in
      let keys' : (j : ℕ) → r.enum_key (suc i + j) ≡ get_elem? ss j =
        λ j. ap (r.enum_key) (omega arith) ∙ keys (suc j) in
      let again = browse_loop match p shows r (suc (length ss)) in
      ap (after_enum match p shows again found)
        (next_service-some r i n s (omega (arith, size)) first c.0)
      ∙ (shown_or_not-config found s (at_index true (suc i) n) same next (s.config) (pick s) c.1
          ∙ shown_or_not-listed found s (at_index true (suc i) n) same next ss (at_index false n n)
              (browse_loop-listed ss (suc i) n found size' keys' c.2)
              (browse_loop-listed ss (suc i) n (suc found) size' keys' c.2))

-- What is listed: nothing, if a name may be longer than 256 units, and else the services that are picked
abbrev pub listing : (pick : Service → Bool) (longest : ℕ) → List Service → Listing
listing pick longest ss =
    if ltb 256 longest
    then ([], at_index false 0 (length ss))
    else (numbered pick 0 ss, at_index false (length ss) (length ss))

-- Where the services' key opens, says how many subkeys it has and how long the longest name is, and gives each of
-- them by its number; where each subkey opens, the matching of the services' names and images does not fault, and the
-- callback goes on: then `apxServiceBrowse` comes to its end after one round more than there are services, and the
-- key is closed. If the longest name has at most 256 units, it shows the services that are selected, each once, in
-- the order of the registry and with the numbers from 0 on; and else it shows nothing.
pub browse-listed :
    (lower : ℕ → ℕ) (buffer : Bytes) (p : Patterns) (shows : Service → ℕ → Bool) (r : Root)
    → (pick : Service → Bool) (ss : List Service) (longest : ℕ)
    → ((s : Service) (n : ℕ) → shows s n ≡ true)
    → r.opens ≡ true
    → r.info ≡ some (length ss, longest)
    → ((j : ℕ) → r.enum_key j ≡ get_elem? ss j)
    → Chosen (matches lower buffer) p pick ss
    → browse lower buffer p shows r (suc (length ss)) ≡ some (listing pick longest ss)
unfolding browse browse_loop after_enum
browse-listed lower buffer p shows r pick ss longest all_shown opens info keys c =
    let again = browse_loop (matches lower buffer) p shows r (length ss) in
    if_elim
      (λ (l : Listing).
        after_enum (matches lower buffer) p shows again 0
          (registry_enum_services r (at_index false 0 0))
        ≡ some l)
      (ltb 256 longest) _ _
      (λ long.
        ap (after_enum (matches lower buffer) p shows again 0)
          (registry_enum_services-long r (length ss) longest opens info long))
      (λ short.
        ap (after_enum (matches lower buffer) p shows again 0)
          (registry_enum_services-first r (length ss) longest opens info short)
        ∙ browse_loop-listed (matches lower buffer) p pick shows r all_shown ss 0 (length ss) 0
            (omega arith) (λ j. ap (r.enum_key) (omega arith) ∙ keys j) c)
