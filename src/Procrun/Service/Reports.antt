-- ===== src/Procrun/Service/Reports.antt =====
-- The reports of a whole run: how they end, and how their check points go.
use boundary_event_sdk.Prelude.{
  ℕ, suc, ◌+◌, ◌*◌, ◌%◌, ◌^◌, length, ◌≤◌, ◌<◌, ◌≡◌, ◌⊎◌, inl, inr, refl, Bool, true, false, ◌&&◌,
  List, [], ◌∷◌, arith, ◌==◌, if◌then◌else◌, if_elim,
}
use boundary_event_sdk.Procrun.Service.{
  RunState, Hook, on_exit_stop, on_exit_start, exit_hook, run_hooks, control_stop, control_shutdown,
  control_interrogate, control_other, stop_waits, stop_exits, start_pending, running, stop_pending,
  stopped, Status, Service, Run, Event, is_pending, report, next_status, report_stopped, handle,
  handle_all, finish, wait_threads, one_minute, serve, no_error, specific_error,
}
use boundary_event_sdk.Procrun.Service.Start.{service_start}

-- The check points of the pending reports: each is below that of any later one, and all are below the
-- next one; the other reports have 0, and only a running service accepts controls.
abbrev pub Ordered : (bound : ℕ) → List Status → Type 0
Ordered bound [] = Unit {0}
Ordered bound (r ∷ rs) =
    ((is_pending (r.state) ≡ true) × (r.check_point < bound) × Ordered (r.check_point) rs)
    ⊎ ((is_pending (r.state) ≡ false) × (r.check_point ≡ 0) × Ordered bound rs)

abbrev pub IsOrdered : Service → Type 0
IsOrdered s = Ordered (s.next_check) (s.reported)

Ordered-mono : (m n : ℕ) (rs : List Status) → m ≤ n → Ordered m rs → Ordered n rs
Ordered-mono m n [] le h = tt
Ordered-mono m n (r ∷ rs) le (inl (p, lt, h)) = inl (p, omega arith, h)
Ordered-mono m n (r ∷ rs) le (inr (p, z, h)) = inr (p, z, Ordered-mono m n rs le h)

-- There is room for `n` more pending reports before the `DWORD` of check points wraps.
abbrev pub Within : ℕ → Service → Type 0
Within n s = Ordered (s.next_check) (s.reported) × (s.next_check + n < 2 ^ 32)

sent_pending :
    (n : ℕ) (s : Service) (r : Status)
    → Within (suc n) s
    → is_pending (r.state) ≡ true
    → r.check_point ≡ s.next_check
    → Ordered ((s.next_check + 1) % 2 ^ 32) (r ∷ s.reported)
      × ((s.next_check + 1) % 2 ^ 32 + n < 2 ^ 32)
sent_pending n s r (h, lt) p e = (inl (p, omega arith, rw e h), omega arith)

weaken : (n : ℕ) (s : Service) → Within (suc n) s → Within n s
weaken n s (h, lt) = (h, omega arith)

report-Within :
    (state : RunState) (code hint specific n : ℕ) (s : Service)
    → Within (suc n) s
    → Within n (report state code hint specific s)
unfolding report next_status
report-Within start_pending code hint specific n s h =
    if_elim (Within n) (s.service_mode && s.registered) _ _
      (λ _.
        sent_pending n s (next_status start_pending code hint specific (s.next_check)) h refl refl)
      (λ _. weaken n s h)
report-Within stop_pending code hint specific n s h =
    if_elim (Within n) (s.service_mode && s.registered) _ _
      (λ _.
        sent_pending n s (next_status stop_pending code hint specific (s.next_check)) h refl refl)
      (λ _. weaken n s h)
report-Within running code hint specific n s (h, lt) =
    if_elim (Within n) (s.service_mode && s.registered) _ _
      (λ _. (inr (refl, refl, h), omega arith)) (λ _. weaken n s (h, lt))
report-Within stopped code hint specific n s (h, lt) =
    if_elim (Within n) (s.service_mode && s.registered) _ _
      (λ _. (inr (refl, refl, h), omega arith)) (λ _. weaken n s (h, lt))

report_stopped-Within :
    (code n : ℕ) (s : Service) → Within (suc n) s → Within n (report_stopped code s)
unfolding report_stopped
report_stopped-Within code n s h =
    if_elim (Within n) (code == 0) _ _ (λ _. report-Within stopped no_error 0 0 n s h)
      (λ _. report-Within stopped specific_error 0 code n s h)

handle-Within : (e : Event) (n : ℕ) (s : Service) → Within (suc n) s → Within n (handle e s)
unfolding handle
handle-Within control_stop n s h = report-Within stop_pending no_error (3 * 1000) 0 n s h
handle-Within control_shutdown n s h = report-Within stop_pending no_error (3 * 1000) 0 n s h
handle-Within control_interrogate n s h =
    report-Within (s.status.state) (s.status.exit_code) (s.status.wait_hint) 0 n s h
handle-Within control_other n s h = weaken n s h
handle-Within (stop_waits timeout) n s h = report-Within stop_pending no_error timeout 0 n s h
handle-Within stop_exits n s h = report-Within stop_pending no_error (20 * 1000) 0 n s h

handle_all-Within :
    (es : List Event) (n : ℕ) (s : Service) → Within (length es + n) s → Within n (handle_all es s)
unfolding handle_all
handle_all-Within [] n s (h, lt) = (h, omega arith)
handle_all-Within (e ∷ es) n s (h, lt) =
    handle_all-Within es n (handle e s) (handle-Within e (length es + n) s (h, omega arith))

wait_threads-Within :
    (event : Bool) (between : List Event) (n : ℕ) (s : Service)
    → Within (suc (length between + suc n)) s
    → Within n (wait_threads event between s)
unfolding wait_threads
wait_threads-Within true between n s h =
    let s1 : Service = report stop_pending no_error one_minute 0 s in
    report-Within stop_pending no_error one_minute 0 n (handle_all between s1) (
      handle_all-Within between (suc n) s1
        (report-Within stop_pending no_error one_minute 0 (length between + suc n) s h))
wait_threads-Within false between n s (h, lt) =
    report-Within stop_pending no_error 0 0 n s (h, omega (arith, lt))

-- The reports of the stop thread and the SCM once the worker has ended
abbrev pub late : Run → ℕ
late run = length (run.between) + length (run.meanwhile)

finish-Within :
    (run : Run) (n : ℕ) (s : Service) → Within (late run + (n + 3)) s → Within n (finish run s)
unfolding finish
finish-Within run n s (h, lt) =
    let s1 : Service = wait_threads (run.shutdown_event) (run.between) s in
    report_stopped-Within (run.vm_exit_code) n (handle_all (run.meanwhile) s1) (
      handle_all-Within (run.meanwhile) (suc n) s1 (
        wait_threads-Within (run.shutdown_event) (run.between) (length (run.meanwhile) + suc n) s
          (h, omega (arith, lt))))

pub serve-Within :
    (run : Run) (n : ℕ) (s : Service)
    → Within (suc (suc (length (run.events) + (late run + (n + 3))))) s
    → Within n (serve run s).0
unfolding serve
serve-Within run n s h =
    let m : ℕ = length (run.events) + (late run + (n + 3)) in
    let s1 : Service = report start_pending no_error 3000 0 s in
    let s2 : Service = report running no_error 0 0 s1 in
    let h1 : Within (suc m) s1 = report-Within start_pending no_error 3000 0 (suc m) s h in
    let h2 : Within m s2 = report-Within running no_error 0 0 m s1 h1 in
    if_elim (λ (r : Service × ℕ). Within n (r.0)) ((service_start (run.start)).rv == 0) _ _
      (λ _.
        finish-Within run n (handle_all (run.events) s2)
          (handle_all-Within (run.events) (late run + (n + 3)) s2 h2))
      (λ _. report_stopped-Within ((service_start (run.start)).rv) n s1 (h1.0, omega (arith, h1.1)))

exit_hook-Within :
    (code : ℕ) (k : Hook) (n : ℕ) (s : Service) → Within (suc n) s → Within n (exit_hook code k s)
unfolding exit_hook
exit_hook-Within code on_exit_stop n s h =
    if_elim (Within n) (s.service_mode) _ _ (λ _. report_stopped-Within 0 n s h) (λ _. weaken n s h)
exit_hook-Within code on_exit_start n s h =
    if_elim (Within n) (s.service_mode && (code == 0)) _ _ (λ _. report_stopped-Within 0 n s h)
      (λ _. weaken n s h)

pub run_hooks-Within :
    (code : ℕ) (ks : List Hook) (n : ℕ) (s : Service)
    → Within (length ks + n) s
    → Within n (run_hooks code ks s)
unfolding run_hooks
run_hooks-Within code [] n s (h, lt) = (h, omega (arith, lt))
run_hooks-Within code (k ∷ ks) n s (h, lt) =
    run_hooks-Within code ks n (exit_hook code k s)
      (exit_hook-Within code k (length ks + n) s (h, omega (arith, lt)))

-- The SCM hears the reports.
abbrev pub IsHeard : Service → Type 0
IsHeard s = (s.service_mode ≡ true) × (s.registered ≡ true)

pub report-IsHeard :
    (state : RunState) (code hint specific : ℕ) (s : Service)
    → IsHeard s
    → IsHeard (report state code hint specific s)
unfolding report
report-IsHeard state code hint specific s h =
    if_elim IsHeard (s.service_mode && s.registered) _ _ (λ _. h) (λ _. h)

handle-IsHeard : (e : Event) (s : Service) → IsHeard s → IsHeard (handle e s)
unfolding handle
handle-IsHeard control_stop s h = report-IsHeard stop_pending no_error (3 * 1000) 0 s h
handle-IsHeard control_shutdown s h = report-IsHeard stop_pending no_error (3 * 1000) 0 s h
handle-IsHeard control_interrogate s h =
    report-IsHeard (s.status.state) (s.status.exit_code) (s.status.wait_hint) 0 s h
handle-IsHeard control_other s h = h
handle-IsHeard (stop_waits timeout) s h = report-IsHeard stop_pending no_error timeout 0 s h
handle-IsHeard stop_exits s h = report-IsHeard stop_pending no_error (20 * 1000) 0 s h

pub handle_all-IsHeard : (es : List Event) (s : Service) → IsHeard s → IsHeard (handle_all es s)
unfolding handle_all
handle_all-IsHeard [] s h = h
handle_all-IsHeard (e ∷ es) s h = handle_all-IsHeard es (handle e s) (handle-IsHeard e s h)

-- The last report says that the service has stopped, with that code.
abbrev pub Ends : (code : ℕ) → List Status → Type 0
Ends code [] = ⊥
Ends code (r ∷ rs) = (r.state ≡ stopped) × (r.specific ≡ code)

report-Ends :
    (code specific : ℕ) (s : Service)
    → IsHeard s
    → Ends specific ((report stopped code 0 specific s).reported)
unfolding report next_status
report-Ends code specific s (mode, reg) = rw (mode, reg) (refl, refl)

pub report_stopped-Ends :
    (code : ℕ) (s : Service) → IsHeard s → Ends code ((report_stopped code s).reported)
unfolding report_stopped
report_stopped-Ends code s h =
    if_elim (λ (r : Service). Ends code (r.reported)) (code == 0) _ _
      (λ e. rw (zero_of e) (report-Ends no_error 0 s h)) (λ _. report-Ends specific_error code s h)
  where
    zero_of : (code == 0) ≡ true → code ≡ 0
    zero_of e = ground arith

pub report_stopped-IsHeard : (code : ℕ) (s : Service) → IsHeard s → IsHeard (report_stopped code s)
unfolding report_stopped
report_stopped-IsHeard code s h =
    if_elim IsHeard (code == 0) _ _ (λ _. report-IsHeard stopped no_error 0 0 s h)
      (λ _. report-IsHeard stopped specific_error 0 code s h)

-- The code that is reported last when hooks run: 0 if one of them reports
abbrev pub hooked_code : (vm_exit_code : ℕ) → List Hook → (code : ℕ) → ℕ
hooked_code vm [] code = code
hooked_code vm (on_exit_stop ∷ ks) code = hooked_code vm ks 0
hooked_code vm (on_exit_start ∷ ks) code = hooked_code vm ks (if vm == 0 then 0 else code)

pub run_hooks-Ends :
    (vm : ℕ) (ks : List Hook) (code : ℕ) (s : Service)
    → IsHeard s
    → Ends code (s.reported)
    → Ends (hooked_code vm ks code) ((run_hooks vm ks s).reported)
unfolding run_hooks exit_hook
run_hooks-Ends vm [] code s h e = e
run_hooks-Ends vm (on_exit_stop ∷ ks) code s h e =
    if_elim (λ (r : Service). Ends (hooked_code vm ks 0) ((run_hooks vm ks r).reported))
      (s.service_mode) _ _
      (λ _.
        run_hooks-Ends vm ks 0 (report_stopped 0 s) (report_stopped-IsHeard 0 s h)
          (report_stopped-Ends 0 s h))
      (λ off. absurd (ground (arith, off, h.0)))
run_hooks-Ends vm (on_exit_start ∷ ks) code s h e =
    if_elim
      (λ (r : Service).
        Ends (hooked_code vm ks (if vm == 0 then 0 else code)) ((run_hooks vm ks r).reported))
      (s.service_mode && (vm == 0)) _ _
      (λ on.
        let z : (vm == 0) ≡ true = ground (arith, on) in
        rw z (
          run_hooks-Ends vm ks 0 (report_stopped 0 s) (report_stopped-IsHeard 0 s h)
            (report_stopped-Ends 0 s h)))
      (λ off.
        let z : (vm == 0) ≡ false = ground (arith, off, h.0) in
        rw z (run_hooks-Ends vm ks code s h e))
