-- ===== src/Daemon/Signals.antt =====
-- The signal handlers of src/native/unix/native/jsvc-unix.c: `handler` of the child that runs the JVM,
-- `controller` of the process that watches over it, and `signal_set`.
pub mod Requests
use boundary_event_sdk.Prelude.{ℕ, Bool, true, false, Option, none, some, List, [], ◌∷◌, ℤ}

pub data Signal : Type 0 where
  term : Signal
  int : Signal
  hup : Signal
  usr1 : Signal
  usr2 : Signal
  unknown : ℕ → Signal

-- The static variables that the handler sets
pub record Flags : Type 0 where
  pub stopping : Bool
  pub doreload : Bool
  pub doreopen : Bool
  pub dosignal : Bool

abbrev pub clear : Flags
clear = record { stopping = false; doreload = false; doreopen = false; dosignal = false }

-- "Scheduling a shutdown", or "Shutdown or reload already scheduled"
abbrev pub shutdown : Flags → Flags
shutdown f = elim (f.stopping) [ true ↦ f | false ↦ record f { stopping = true } ]

abbrev pub reload : Flags → Flags
reload f = elim (f.stopping) [ true ↦ f | false ↦ record f { stopping = true; doreload = true } ]

unfoldable pub handler : Signal → Flags → Flags
handler term f = shutdown f
handler int f = shutdown f
handler hup f = reload f
handler usr1 f = record f { doreopen = true }
handler usr2 f = record f { dosignal = true }
handler (unknown n) f = f

-- The signals of one sleep, in their order.
unfoldable pub handle_all : List Signal → Flags → Flags
handle_all [] f = f
handle_all (s ∷ ss) f = handle_all ss (handler s f)

-- What `controller` sends on to the child, `kill(controlled, sig)`
unfoldable pub controller : Signal → (controlled : ℤ) → Option (ℤ × Signal)
controller (unknown n) controlled = none
controller s controlled = some (controlled, s)

-- What `signal` can return of the handler that was set before
pub data Disposition : Type 0 where
  null : Disposition
  sig_err : Disposition
  our_handler : Disposition
  our_controller : Disposition
  foreign : ℕ → Disposition

-- `signal_set`: the handler before, if it is neither an error nor one of ours
unfoldable pub signal_set : (before : Disposition) → Disposition
signal_set (foreign n) = foreign n
signal_set _ = null
