-- ===== src/Daemon/Child/Privileges.antt =====
-- With which rights the service is started.
use boundary_event_sdk.Prelude.{
  Bool, true, false, Option, none, some, List, [], ◌∷◌, ◌++◌, if◌then◌else◌,
}
use boundary_event_sdk.Daemon.Child.{Call}

abbrev pub is_start : Call → Bool
is_start Call.start = true
is_start _ = false

-- The calls before the service is started; `none`: it is not.
abbrev pub before_start : List Call → Option (List Call)
before_start [] = none
before_start (c ∷ cs) =
    let front = before_start cs in
    if is_start c then some [] else elim front [ none ↦ none | some f ↦ some (c ∷ f) ]

-- What must stand before the start, in this order
abbrev pub required : (user : Bool) → (vershow : Bool) → List Call
required user vershow =
    Call.switch_user
    ∷ Call.init
    ∷ ((if vershow then Call.version ∷ [] else [])
        ++ (Call.load ∷ ((if user then Call.drop_caps ∷ [] else []) ++ (Call.restore_umask ∷ []))))
