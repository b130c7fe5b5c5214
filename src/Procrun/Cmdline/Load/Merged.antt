-- ===== src/Procrun/Cmdline/Load/Merged.antt =====
-- Lists of strings that the command line adds to those of the registry, and what is saved of them.
use boundary_event_sdk.Prelude.{
  ◌+◌, ◌*◌, ◌≡◌, ◌≢◌, true, Option, some, List, [], ◌∷◌, ◌++◌, Bytes, length, inl, inr, arith,
}
use boundary_event_sdk.Procrun.MultiSz.{multi_sz_combine}
use boundary_event_sdk.Procrun.MultiSz.Items.{
  spell, tight, HoldsItems, tight-HoldsItems, AllItems, multi_sz_combine-append,
}
use boundary_event_sdk.Procrun.Cmdline.Options.{Opt, ok, parse_options}
use boundary_event_sdk.Procrun.Cmdline.Accumulate.{
  Fresh, Listed, SamePlace, LacksEquals, NoneNamed, PlainGroups, Group, arguments, strings,
  parse_options-Fresh,
}
use boundary_event_sdk.Procrun.Cmdline.Load.{
  Registry, load_option, combined, write_list, save_option,
}

module _ (registry : Registry) (expand : Bytes → Bytes) where
  open registry use {multi}

  abbrev load : Opt → Option Opt
  load = load_option registry expand

  -- The option with the strings of the registry and of the arguments.
  abbrev merged : Opt → List Bytes → Opt
  merged o items = record o {
    sz_value = some (spell items ++ (0 ∷ []));
    dw_value = (tight items).size * 2;
  }

  load_option-Listed :
      (name : Bytes) (o : Opt) (stored : Bytes) (kept items : List Bytes)
      → Listed name o items
      → items ≢ []
      → o.add ≡ true
      → AllItems items
      → (multi o).0 ≡ some stored
      → HoldsItems stored kept
      → load o ≡ some (merged o (kept ++ items))
  unfolding load_option combined
  load_option-Listed name o stored kept items h some_items adds all e held =
      let (_, _, _, msz, _, same, held_here) = h in
      let joins : multi_sz_combine ((multi o).0) (o.sz_value)
          ≡ some (some (tight (kept ++ items))) =
        elim held_here [
          | inl (none_yet, _) ↦ absurd (some_items none_yet)
          | inr (_, block) ↦
              rw (e, block)
                (multi_sz_combine-append stored (spell items ++ (0 ∷ [])) kept items held
                  (tight-HoldsItems items all))
        ] in
      ground (arith, joins, msz, same, adds)

  save_option-Listed :
      (name : Bytes) (o start : Opt) (items all : List Bytes)
      → Listed name o items
      → o.add ≡ true
      → SamePlace o start
      → save_option (merged o all)
        ≡ write_list
            (start.subkey)
            (start.registry)
            (some (spell all ++ (0 ∷ [])))
            ((tight all).size * 2)
          ∷ []
  unfolding save_option
  save_option-Listed name o start items all (_, str, int, msz, srv, same, _) adds (subkey, place) =
      ground (arith, str, int, msz, srv, same, adds, subkey, place)

  strings-ne-nil :
      (s : Bytes) (items : List Bytes) (groups : List Group) → strings ((s, items) ∷ groups) ≢ []
  strings-ne-nil s items groups e = cc

  -- The arguments `++name=...` of a list option add to what the registry stores for it: once the
  -- configuration is loaded and saved, what is written is the block of the stored strings and then
  -- those of the arguments, in their order, with the size of the block in bytes. The strings of the
  -- arguments are not empty and hold no quote, `#`, `;` or NUL, the name holds no `=`, no option before it
  -- has the name, and it is no option of the service itself.
  pub save_option-load_option :
      (name s : Bytes) (items : List Bytes) (groups : List Group) (front back : List Opt) (o : Opt)
      (stored : Bytes) (kept : List Bytes)
      → LacksEquals name
      → NoneNamed name front
      → PlainGroups ((s, items) ∷ groups)
      → AllItems (strings ((s, items) ∷ groups))
      → Fresh name o
      → ((p : Opt) → p.name ≡ name → (multi p).0 ≡ some stored)
      → HoldsItems stored kept
      → (set loaded : Opt) × (parse_options
            (front ++ (o ∷ back))
            (arguments name ((s, items) ∷ groups))
          ≡ ok (front ++ (set ∷ back), []))
        × (load set ≡ some loaded)
        × (save_option loaded
            ≡ write_list
                (o.subkey)
                (o.registry)
                (some (spell (kept ++ strings ((s, items) ∷ groups)) ++ (0 ∷ [])))
                ((length (spell (kept ++ strings ((s, items) ∷ groups))) + 1) * 2)
              ∷ [])
  save_option-load_option name s items groups front back o stored kept lacks none_named plain all
        fresh is_stored held =
      let (set, parsed, listed, adds, there) =
        parse_options-Fresh name s items groups front back o lacks none_named plain fresh in
      (
        set,
        merged set (kept ++ strings ((s, items) ∷ groups)),
        parsed,
        load_option-Listed name set stored kept (strings ((s, items) ∷ groups)) listed
            (strings-ne-nil s items groups) adds all (is_stored set listed.0) held,
        save_option-Listed name set o (strings ((s, items) ∷ groups))
            (kept ++ strings ((s, items) ∷ groups)) listed adds there,
      )
