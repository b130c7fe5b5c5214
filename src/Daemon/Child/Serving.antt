-- ===== src/Daemon/Child/Serving.antt =====
-- What the child returns, by the signals it gets.
use boundary_event_sdk.Prelude.{
  ◌≡◌, refl, Bool, true, false, Option, none, some, List, [], ◌∷◌, ◌++◌, arith, ℤ, inl, inr,
  Option-cases, pos,
}
use boundary_event_sdk.Arguments.{ArgData}
use boundary_event_sdk.Daemon.Kernel.{Kernel}
use boundary_event_sdk.Daemon.PidFile.{check_pid}
use boundary_event_sdk.Daemon.Signals.{Signal, Flags, clear}
use boundary_event_sdk.Daemon.Signals.Requests.{request, asked, handle_all-asked}
use boundary_event_sdk.Daemon.Child.{
  Service, signal_loop, shut_down, serve, run_service, check_or_run, child_body, refuses, child,
}

abbrev pub concat : List (List Signal) → List Signal
concat [] = []
concat (ss ∷ sss) = ss ++ concat sss

request-append :
    (ss ts : List Signal)
    → request (ss ++ ts) ≡ elim (request ss) [ none ↦ request ts | some r ↦ some r ]
request-append [] ts = refl
request-append (Signal.term ∷ ss) ts = refl
request-append (s ∷ ss) ts = ground (arith, request-append ss ts)

-- Whether the flags ask for a reload, once the loop has ended
abbrev pub reloads : Option Flags → Option Bool
reloads none = none
reloads (some f) = some (f.doreload)

-- Once a request is in, the loop ends before the next sleep.
signal_loop-stopping :
    (sleeps : List (List Signal)) (f : Flags)
    → f.stopping ≡ true
    → (signal_loop sleeps f).flags ≡ some f
unfolding signal_loop
signal_loop-stopping [] f h = ground arith
signal_loop-stopping (sleep ∷ sleeps) f h = ground arith

-- The flags after one sleep, with SIGUSR1 and SIGUSR2 served
abbrev next_flags : List Signal → Flags → Flags
next_flags sleep f = record (asked sleep f) { doreopen = false; dosignal = false }

signal_loop-next :
    (sleep : List Signal) (sleeps : List (List Signal)) (f : Flags)
    → f.stopping ≡ false
    → (signal_loop (sleep ∷ sleeps) f).flags ≡ (signal_loop sleeps (next_flags sleep f)).flags
unfolding signal_loop
signal_loop-next sleep sleeps f awake = ground (arith, handle_all-asked sleep f)

signal_loop-request :
    (sleeps : List (List Signal)) (f : Flags)
    → f.stopping ≡ false
    → f.doreload ≡ false
    → reloads (signal_loop sleeps f).flags ≡ request (concat sleeps)
unfolding signal_loop
signal_loop-request [] f awake plain = ground arith
signal_loop-request (sleep ∷ sleeps) f awake plain = elim (Option-cases (request sleep)) [
  | inl quiet ↦ ground (
    arith,
    signal_loop-next sleep sleeps f awake,
    signal_loop-request sleeps (next_flags sleep f),
    request-append sleep (concat sleeps),
  )
  | inr (r, asks) ↦ ground (
    arith,
    signal_loop-next sleep sleeps f awake,
    signal_loop-stopping sleeps (next_flags sleep f),
    request-append sleep (concat sleeps),
  )
]

-- The code of a service that is asked to stop or to reload
abbrev pub final_code : Option Bool → Option ℤ
final_code none = none
final_code (some true) = some (pos 123)
final_code (some false) = some (pos 0)

-- Every function of java.c and every change of user succeeds.
pub record AllSucceed (svc : Service) : Type 0 where
  pub switches : svc.linuxset_user_group ≡ true
  pub inits : svc.java_init ≡ true
  pub versions : svc.java_version ≡ true
  pub loads : svc.java_load ≡ true
  pub drops : svc.set_caps ≡ true
  pub starts : svc.java_start ≡ true
  pub stops : svc.java_stop ≡ true
  pub destroys : svc.jvm_destroy ≡ true

shut_down-code :
    (svc : Service) (doreload : Bool)
    → AllSucceed svc
    → (shut_down svc doreload).code ≡ final_code (some doreload)
unfolding shut_down
shut_down-code svc true good = ground arith
shut_down-code svc false good = ground arith

serve-code :
    (svc : Service) (sleeps : List (List Signal))
    → AllSucceed svc
    → (serve svc sleeps).code ≡ final_code (request (concat sleeps))
unfolding serve
serve-code svc sleeps good = elim (Option-cases (signal_loop sleeps clear).flags) [
  | inl waiting ↦ ground (arith, waiting, signal_loop-request sleeps clear refl refl)
  | inr (f, ended) ↦ ground (
    arith,
    ended,
    signal_loop-request sleeps clear refl refl,
    shut_down-code svc (f.doreload) good,
  )
]

module _ (k : Kernel) where
  open k use {World}

  -- A child that claims the pid file and whose calls all succeed serves until the first SIGTERM,
  -- SIGINT or SIGHUP, whatever signals come with it or behind it; it then returns 123 for SIGHUP and 0
  -- for the others.
  pub child_serves :
      (svc : Service) (args : ArgData) (sleeps : List (List Signal)) (w w' : World)
      → AllSucceed svc
      → args.vers ≡ false
      → args.chck ≡ false
      → check_pid k args w ≡ (pos 0, w')
      → (child k svc args sleeps w).0.code ≡ final_code (request (concat sleeps))
  unfolding child refuses child_body check_or_run run_service
  child_serves svc args sleeps w w' good runs unchecked claims =
      ground (arith, claims, serve-code svc sleeps good)
