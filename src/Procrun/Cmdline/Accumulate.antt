-- ===== src/Procrun/Cmdline/Accumulate.antt =====
-- Lists of strings that several `++name=value` arguments collect.
use boundary_event_sdk.Prelude.{
  ◌≡◌, ◌≢◌, inl, refl, ap, sym, ◌∙◌, Bool, true, false, some, List, [], ◌∷◌, ◌++◌, Bytes, arith,
  append_assoc, append-nil, str_eq, str_eq_refl, starts_with,
}
use boundary_event_sdk.Procrun.Cmdline.Options.{
  Opt, ok, ◌>>=◌, inline_value, assign, parse_options, set_option, store_value, mark, set_list,
}
use boundary_event_sdk.Procrun.Cmdline.Values.{AllPlain, hashed, Collected, set_list-Collected}

abbrev pub LacksEquals : Bytes → Type 0
LacksEquals [] = Unit {0}
LacksEquals (c ∷ s) = (c ≢ b'=') × LacksEquals s

-- `++name=value`
abbrev pub plus_arg : (name val : Bytes) → Bytes
plus_arg name val = b'+' ∷ b'+' ∷ (name ++ (b'=' ∷ val))

inline_value-append :
    (name val : Bytes) → LacksEquals name → inline_value (name ++ (b'=' ∷ val)) ≡ (name, some val)
unfolding inline_value
inline_value-append [] val h = ground arith
inline_value-append (c ∷ name) val h = ground (arith, inline_value-append name val h.1)

plus_arg_step :
    (opts : List Opt) (name val : Bytes) (args : List Bytes)
    → LacksEquals name
    → parse_options opts (plus_arg name val ∷ args)
      ≡ (assign name true val opts >>= λ set. parse_options set args)
unfolding parse_options starts_with
plus_arg_step opts name val [] h = ground (arith, inline_value-append name val h)
plus_arg_step opts name val (a ∷ args) h = ground (arith, inline_value-append name val h)

-- No option of the list has the name.
abbrev pub NoneNamed : Bytes → List Opt → Type 0
NoneNamed name [] = Unit {0}
NoneNamed name (o ∷ os) = (str_eq (o.name) name ≡ false) × NoneNamed name os

assign-append :
    (front back : List Opt) (o set : Opt) (name val : Bytes) (plus : Bool)
    → NoneNamed name front
    → str_eq (o.name) name ≡ true
    → set_option plus val o ≡ ok set
    → assign name plus val (front ++ (o ∷ back)) ≡ ok (front ++ (set ∷ back))
unfolding assign
assign-append [] back o set name val plus h named e = ground (arith, named, e)
assign-append (p ∷ front) back o set name val plus h named e =
    ground (arith, assign-append front back o set name val plus h.1 named e)

-- The option of a list of strings, as `++` leaves it: it has collected `items`.
abbrev pub Listed : Bytes → Opt → List Bytes → Type 0
Listed name o items =
    (o.name ≡ name)
    × (o.is_str ≡ false)
    × (o.is_int ≡ false)
    × (o.is_msz ≡ true)
    × (o.is_srv ≡ false)
    × (o.found ≡ o.add)
    × Collected o items

mark-Listed :
    (name : Bytes) (o : Opt) (items : List Bytes)
    → Listed name o items
    → Listed name (record (mark true o) { found = true }) items × (((mark true o).add) ≡ true)
unfolding mark
mark-Listed name o items h = ground arith

store_value_list :
    (val : Bytes) (o : Opt)
    → o.is_str ≡ false
    → o.is_int ≡ false
    → o.is_msz ≡ true
    → store_value val o ≡ ok (set_list val o)
unfolding store_value
store_value_list val o str int msz = ground (arith, str, int, msz)

-- What `++name` of a list option leaves.
abbrev collect : Bytes → Opt → Opt
collect val o = record (set_list val (mark true o)) { found = true }

set_option-collect :
    (name val : Bytes) (o : Opt) (items : List Bytes)
    → Listed name o items
    → set_option true val o ≡ ok (collect val o)
unfolding set_option
set_option-collect name val o items h =
    let ((_, str, int, msz, _, _, _), _) = mark-Listed name o items h in
    rw (store_value_list val (mark true o) str int msz) refl

collect-Listed :
    (name : Bytes) (o : Opt) (old : List Bytes) (s : Bytes) (items : List Bytes)
    → AllPlain (s ∷ items)
    → Listed name o old
    → Listed name (collect (hashed s items) o) (old ++ (s ∷ items))
      × ((collect (hashed s items) o).add ≡ true)
unfolding set_list
collect-Listed name o old s items plain h =
    let ((named, str, int, msz, srv, same, held), adds) = mark-Listed name o old h in
    (
      (named, str, int, msz, srv, same, set_list-Collected (mark true o) old s items plain held),
      adds,
    )

-- The place of an option in the registry stays.
abbrev pub SamePlace : Opt → Opt → Type 0
SamePlace set o = (set.subkey ≡ o.subkey) × (set.registry ≡ o.registry)

collect-SamePlace : (val : Bytes) (o : Opt) → SamePlace (collect val o) o
unfolding set_list mark
collect-SamePlace val o = ground arith

-- Each argument gives one string and perhaps more.
abbrev pub Group : Type 0
Group = Bytes × List Bytes

abbrev pub arguments : Bytes → List Group → List Bytes
arguments name [] = []
arguments name ((s, items) ∷ groups) = plus_arg name (hashed s items) ∷ arguments name groups

abbrev pub strings : List Group → List Bytes
strings [] = []
strings ((s, items) ∷ groups) = (s ∷ items) ++ strings groups

abbrev pub PlainGroups : List Group → Type 0
PlainGroups [] = Unit {0}
PlainGroups ((s, items) ∷ groups) = AllPlain (s ∷ items) × PlainGroups groups

collect_step :
    (name s : Bytes) (items : List Bytes) (args : List Bytes) (front back : List Opt) (o : Opt)
    (old : List Bytes)
    → LacksEquals name
    → NoneNamed name front
    → Listed name o old
    → parse_options (front ++ (o ∷ back)) (plus_arg name (hashed s items) ∷ args)
      ≡ parse_options (front ++ (collect (hashed s items) o ∷ back)) args
collect_step name s items args front back o old lacks none_named h =
    plus_arg_step (front ++ (o ∷ back)) name (hashed s items) args lacks
    ∙ ap (λ r. r >>= λ set. parse_options set args)
        (assign-append front back o (collect (hashed s items) o) name (hashed s items) true
          none_named (rw h.0 (str_eq_refl name)) (set_option-collect name (hashed s items) o old h))

-- The arguments `++name=...` put their strings behind those that the option has, in their order.
pub parse_options-Listed :
    (name : Bytes) (groups : List Group) (front back : List Opt) (o : Opt) (old : List Bytes)
    → LacksEquals name
    → NoneNamed name front
    → PlainGroups groups
    → Listed name o old
    → o.add ≡ true
    → (set : Opt) × (parse_options (front ++ (o ∷ back)) (arguments name groups)
        ≡ ok (front ++ (set ∷ back), []))
      × Listed name set (old ++ strings groups)
      × (set.add ≡ true)
      × SamePlace set o
parse_options-Listed name [] front back o old lacks none_named plain h adds =
    (o, unfold parse_options in refl, rw append-nil h, adds, (refl, refl))
parse_options-Listed name ((s, items) ∷ groups) front back o old lacks none_named plain h adds =
    let (listed, added) = collect-Listed name o old s items plain.0 h in
    let (subkey, registry) = collect-SamePlace (hashed s items) o in
    let (set, parsed, all, still, there) =
      parse_options-Listed name groups front back (collect (hashed s items) o) (old ++ (s ∷ items))
        lacks none_named plain.1 listed added in
    (
      set,
      collect_step name s items (arguments name groups) front back o old lacks none_named h
          ∙ parsed,
      rw (append_assoc old (s ∷ items) (strings groups)) at all,
      still,
      (there.0 ∙ subkey, there.1 ∙ registry),
    )

-- An option that no argument has named yet.
abbrev pub Fresh : Bytes → Opt → Type 0
Fresh name o =
    (o.name ≡ name)
    × (o.is_str ≡ false)
    × (o.is_int ≡ false)
    × (o.is_msz ≡ true)
    × (o.is_srv ≡ false)
    × (o.found ≡ false)
    × (o.add ≡ false)
    × (o.dw_value ≡ 0)

-- The same from an option that is fresh, for one argument or more: it is marked as an addition.
pub parse_options-Fresh :
    (name s : Bytes) (items : List Bytes) (groups : List Group) (front back : List Opt) (o : Opt)
    → LacksEquals name
    → NoneNamed name front
    → PlainGroups ((s, items) ∷ groups)
    → Fresh name o
    → (set : Opt) × (parse_options (front ++ (o ∷ back)) (arguments name ((s, items) ∷ groups))
        ≡ ok (front ++ (set ∷ back), []))
      × Listed name set (strings ((s, items) ∷ groups))
      × (set.add ≡ true)
      × SamePlace set o
parse_options-Fresh name s items groups front back o lacks none_named plain fresh =
    let (named, str, int, msz, srv, found, add, none_yet) = fresh in
    let h : Listed name o [] =
      (named, str, int, msz, srv, found ∙ sym add, inl (refl, omega (arith, none_yet))) in
    let (listed, added) = collect-Listed name o [] s items plain.0 h in
    let (subkey, registry) = collect-SamePlace (hashed s items) o in
    let (set, parsed, all, still, there) =
      parse_options-Listed name groups front back (collect (hashed s items) o) (s ∷ items) lacks
        none_named plain.1 listed added in
    (
      set,
      collect_step name s items (arguments name groups) front back o [] lacks none_named h ∙ parsed,
      all,
      still,
      (there.0 ∙ subkey, there.1 ∙ registry),
    )
