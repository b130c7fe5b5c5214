-- ===== src/Procrun/Browse.antt =====
-- The listing of services: `apxServiceBrowse` of src/native/windows/src/service.c and
-- `apxRegistryEnumServices` of src/native/windows/src/registry.c.
pub mod Listed
pub mod Tests
use boundary_event_sdk.Prelude.{
  ℕ, zero, suc, ◌+◌, ◌/◌, ◌%◌, Bool, true, false, not, ◌&&◌, Option, none, some, List, [], ◌∷◌,
  Bytes, ltb, ◌==◌, if◌then◌else◌,
}
use boundary_event_sdk.Procrun.Wildcard.{Verdict, matched, unmatched, aborted, multi_str_match}

-- What `QueryServiceConfigW` answers
pub record Config : Type 0 where
  pub queried : Bool
  pub type : ℕ
  pub image : Bytes

-- A subkey of the services, whether it opens, and the service if `OpenServiceW` finds it. The other fields of the
-- entry are handed on only.
pub record Service : Type 0 where
  pub name : Bytes
  pub key_opens : Bool
  pub config : Option Config

-- `RegOpenKeyExW` of the services' key, `RegQueryInfoKeyW` with the number of subkeys and the longest name's length,
-- and `RegEnumKeyExW`
pub record Root : Type 0 where
  pub opens : Bool
  pub info : Option (ℕ × ℕ)
  pub enum_key : ℕ → Option Service

-- `APXREGENUM`: whether the key is open, `dwIndex` and `cSubKeys`
pub record Enum : Type 0 where
  pub is_open : Bool
  pub index : ℕ
  pub count : ℕ

abbrev pub resource_length : ℕ
resource_length = 256

-- The part of `apxRegistryEnumServices` with the key open
unfoldable pub next_service : Root → Enum → Option Service × Enum
next_service r e =
    let closed = record e { is_open = false } in
    let on = record e { index = suc e.index } in
    if not (ltb e.index e.count) then (none, closed) else elim (r.enum_key e.index) [
      | none ↦ (none, record on { is_open = false })
      | some s ↦ if s.key_opens then (some s, on) else (none, record on { is_open = false })
    ]

-- `apxRegistryEnumServices`; `none` is `FALSE`.
unfoldable pub registry_enum_services : Root → Enum → Option Service × Enum
unfolding next_service
registry_enum_services r e =
    let opened = elim (r.info) as (λ _. Option Service × Enum) [
      | none ↦ (none, e)
      | some (count, longest) ↦
          if ltb resource_length longest
          then (none, record e { count = count })
          else next_service r (record e { is_open = true; count = count })
    ] in
    if e.is_open then next_service r e else if not (r.opens) then (none, e) else opened

-- The patterns of `apxServiceBrowse`, each memory up to a NUL
pub record Patterns : Type 0 where
  pub include_name : Option Bytes
  pub include_image : Option Bytes
  pub exclude_name : Option Bytes
  pub exclude_image : Option Bytes

abbrev pub is_matched : Verdict → Bool
is_matched matched = true
is_matched unmatched = false
is_matched aborted = false

-- `apxMultiStrMatchW(s, pattern, L';', TRUE)`: whether it is 0; `lower` and `buffer` are as for
-- `multi_str_match`, and `none` is a fault.
unfoldable pub matches : (lower : ℕ → ℕ) (buffer : Bytes) (s pattern : Bytes) → Option Bool
unfolding multi_str_match
matches lower buffer s pattern = elim (multi_str_match lower buffer s pattern b';' true) [
  | none ↦ none
  | some v ↦ some (is_matched v)
]

-- One of the tests: whether `fm` is 0 before and after; a pattern that is missing changes nothing.
unfoldable pub narrow :
    (match : Bytes → Bytes → Option Bool) (included : Bool) (s : Bytes) (pattern : Option Bytes)
    → Option Bool
    → Option Bool
narrow match included s pattern none = none
narrow match included s pattern (some false) = some false
narrow match included s none (some true) = some true
narrow match included s (some p) (some true) = elim (match s p) [
  | none ↦ none
  | some m ↦ some (if included then m else not m)
]

-- The bits of `SERVICE_WIN32`, which `SERVICE_INTERACTIVE_PROCESS` has none of
unfoldable pub is_win32 : ℕ → Bool
is_win32 type = not (type / 16 % 4 == 0)

-- Whether `fm` is 0 in the end; the last test looks at the name too.
unfoldable pub selected :
    (match : Bytes → Bytes → Option Bool) → Patterns → Bytes → Config → Option Bool
unfolding narrow is_win32
selected match p name c = narrow match false name (p.exclude_image) (
    narrow match true (c.image) (p.include_image) (
      narrow match false name (p.exclude_name)
        (narrow match true name (p.include_name) (some (c.queried && is_win32 c.type)))))

-- The services that were shown with their numbers, and the enumeration
abbrev pub Listing : Type 0
Listing = List (ℕ × Service) × Enum

abbrev pub show_first : (found : ℕ) → Service → Option Listing → Option Listing
show_first found s none = none
show_first found s (some (shown, e)) = some ((found, s) ∷ shown, e)

-- What follows the selection; `shows` is what the callback answers.
unfoldable pub shown_or_not :
    (shows : Service → ℕ → Bool) (found : ℕ)
    → Service
    → Enum
    → (same next : Option Listing) → Option Bool
    → Option Listing
shown_or_not shows found s e same next none = none
shown_or_not shows found s e same next (some false) = same
shown_or_not shows found s e same next (some true) =
    if shows s found then show_first found s next else some ((found, s) ∷ [], e)

-- The body of the loop after the enumeration; `again` is the loop, with what was found so far.
unfoldable pub after_enum :
    (match : Bytes → Bytes → Option Bool)
    → Patterns
    → (shows : Service → ℕ → Bool) → (again : ℕ → Enum → Option Listing) → (found : ℕ)
    → Option Service × Enum
    → Option Listing
unfolding selected shown_or_not
after_enum match p shows again found (none, e) = some ([], e)
after_enum match p shows again found (some s, e) = elim (s.config) [
  | none ↦ again found e
  | some c ↦
      shown_or_not shows found s e (again found e) (again (suc found) e)
        (selected match p (s.name) c)
]

-- The loop of `apxServiceBrowse`; `none` is a fault or the end of the fuel.
unfoldable pub browse_loop :
    (match : Bytes → Bytes → Option Bool)
    → Patterns
    → (shows : Service → ℕ → Bool) → Root
    → (fuel found : ℕ) → Enum
    → Option Listing
unfolding registry_enum_services after_enum
browse_loop match p shows r zero found e = none
browse_loop match p shows r (suc fuel) found e =
    after_enum match p shows (browse_loop match p shows r fuel) found (registry_enum_services r e)

-- `apxServiceBrowse`, with the database of services locked
unfoldable pub browse :
    (lower : ℕ → ℕ) (buffer : Bytes)
    → Patterns
    → (shows : Service → ℕ → Bool) → Root
    → (fuel : ℕ) → Option Listing
unfolding browse_loop matches
browse lower buffer p shows r fuel =
    browse_loop (matches lower buffer) p shows r fuel 0
      (record { is_open = false; index = 0; count = 0 })
