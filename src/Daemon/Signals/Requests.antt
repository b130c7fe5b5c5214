-- ===== src/Daemon/Signals/Requests.antt =====
-- Which of the signals decides.
use boundary_event_sdk.Prelude.{
  ◌≡◌, ◌∙◌, Bool, true, false, ◌||◌, Option, none, some, List, [], ◌∷◌, arith,
}
use boundary_event_sdk.Daemon.Signals.{
  Signal, term, int, hup, usr1, usr2, Flags, handler, handle_all,
}

-- The first request to end, `true` for a reload
abbrev pub request : List Signal → Option Bool
request [] = none
request (term ∷ ss) = some false
request (int ∷ ss) = some false
request (hup ∷ ss) = some true
request (s ∷ ss) = request ss

abbrev pub is_usr1 : Signal → Bool
is_usr1 usr1 = true
is_usr1 _ = false

abbrev pub is_usr2 : Signal → Bool
is_usr2 usr2 = true
is_usr2 _ = false

abbrev pub any : (Signal → Bool) → List Signal → Bool
any p [] = false
any p (s ∷ ss) = p s || any p ss

-- The flags by what the signals asked for
abbrev pub asked : List Signal → Flags → Flags
asked ss f = record {
  stopping = elim (request ss) [ none ↦ f.stopping | some r ↦ true ];
  doreload = elim (f.stopping) [
    | true ↦ f.doreload
    | false ↦ elim (request ss) [ none ↦ f.doreload | some r ↦ r || f.doreload ]
  ];
  doreopen = f.doreopen || any is_usr1 ss;
  dosignal = f.dosignal || any is_usr2 ss;
}

asked-nothing : (f : Flags) → f ≡ asked [] f
asked-nothing f = ground arith

asked-handler :
    (s : Signal) (ss : List Signal) (f : Flags) → asked ss (handler s f) ≡ asked (s ∷ ss) f
unfolding handler
asked-handler term ss f = ground arith
asked-handler s ss f = ground arith

-- A sequence of signals leaves the flags that its first request to end, and whether SIGUSR1 and
-- SIGUSR2 are among them, say: behind the first request no other one counts.
pub handle_all-asked : (ss : List Signal) (f : Flags) → handle_all ss f ≡ asked ss f
unfolding handle_all
handle_all-asked [] f = asked-nothing f
handle_all-asked (s ∷ ss) f = handle_all-asked ss (handler s f) ∙ asked-handler s ss f
