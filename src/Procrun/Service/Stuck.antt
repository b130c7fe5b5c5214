-- ===== src/Procrun/Service/Stuck.antt =====
-- What a stop control comes to.
use boundary_event_sdk.Prelude.{
  ℕ, ◌*◌, ◌≡◌, ◌≢◌, ◌⊎◌, inl, inr, refl, Bool, true, false, not, ◌&&◌, ◌||◌, ap, Bool-cases, ◌∷◌,
  arith, if◌then◌else◌,
}
use boundary_event_sdk.Procrun.Service.{
  stop_pending, no_error, Service, handle, handle_all, stop_events, control_stop, report,
  next_status,
}
use boundary_event_sdk.Procrun.Service.Stop.{
  Stopping, Ending, untouched, exiting, closed, waited_for, Stopped, service_stop, stop_java,
  stop_process, end_worker, given_up,
}
use boundary_event_sdk.Procrun.Service.Reports.{IsHeard}

-- The stop worker cannot be made: the JVM is not created, or there is no image, or no process.
unfoldable pub gives_up : Stopping → Bool
gives_up e =
    if e.jni_shutdown
    then not (e.java_created)
    else e.has_stop_mode && (not (e.has_image) || not (e.process_created))

abbrev is_untouched : Ending → Bool
is_untouched untouched = true
is_untouched _ = false

end_worker-touches :
    (rv : ℕ) (wait : Bool) (e : Stopping) → is_untouched ((end_worker rv wait e).ending) ≡ false
unfolding end_worker
end_worker-touches rv wait e = ground arith

service_stop-gives_up :
    (e : Stopping) → e.has_worker ≡ true → is_untouched ((service_stop e).ending) ≡ gives_up e
unfolding service_stop gives_up stop_java stop_process
service_stop-gives_up e h = ground (
  arith,
  end_worker-touches 3 true e,
  end_worker-touches 2 false e,
  end_worker-touches 3 false e,
  end_worker-touches 4 false e,
  end_worker-touches 5 false e,
  end_worker-touches 0 true e,
  end_worker-touches 0 false e,
)

service_stop-given_up :
    (e : Stopping) → e.has_worker ≡ true → gives_up e ≡ true → service_stop e ≡ given_up
unfolding service_stop gives_up stop_java stop_process
service_stop-given_up e h g = ground arith

service_stop-ending :
    (e : Stopping)
    → e.has_worker ≡ true
    → ((gives_up e ≡ true)
        × ((service_stop e).ending ≡ untouched)
        × ((service_stop e).event_set ≡ false))
      ⊎ ((gives_up e ≡ false) × ((service_stop e).ending ≢ untouched))
service_stop-ending e worker = elim (Bool-cases (gives_up e)) [
  | inl g ↦
      let same = service_stop-given_up e worker g in
      inl (g, ap (λ (r : Stopped). r.ending) same, ap (λ (r : Stopped). r.event_set) same)
  | inr n ↦ inr (n, λ same. cc (service_stop-gives_up e worker, n, ap is_untouched same))
]

-- The service waits to stop and takes no further control.
abbrev pub IsDeaf : Service → Type 0
IsDeaf s = (s.status.state ≡ stop_pending) × (s.status.accepts ≡ false)

report-IsDeaf :
    (code hint specific : ℕ) (s : Service)
    → IsHeard s
    → IsDeaf (report stop_pending code hint specific s)
      × IsHeard (report stop_pending code hint specific s)
unfolding report next_status
report-IsDeaf code hint specific s (mode, reg) = rw (mode, reg) ((refl, refl), (refl, refl))

stop_events-IsDeaf :
    (ending : Ending) (s : Service)
    → IsHeard s
    → IsDeaf s
    → IsDeaf (handle_all (stop_events ending) s)
unfolding handle_all stop_events handle
stop_events-IsDeaf untouched s h d = d
stop_events-IsDeaf exiting s h d = (report-IsDeaf no_error (20 * 1000) 0 s h).0
stop_events-IsDeaf closed s h d = (report-IsDeaf no_error 0 0 s h).0
stop_events-IsDeaf (waited_for t) s h d = (report-IsDeaf no_error t 0 s h).0

-- The SCM's stop control to a service with a worker. Whatever the stop worker comes to, the service is
-- left waiting to stop and accepts no further control. The worker is left alone exactly when the stop
-- worker cannot be made, and then the shutdown event is not set either: nothing ends the service.
pub service_stop-IsDeaf :
    (e : Stopping) (s : Service)
    → IsHeard s
    → e.has_worker ≡ true
    → IsDeaf (handle_all (control_stop ∷ stop_events ((service_stop e).ending)) s)
      × (((gives_up e ≡ true)
            × ((service_stop e).ending ≡ untouched)
            × ((service_stop e).event_set ≡ false))
          ⊎ ((gives_up e ≡ false) × ((service_stop e).ending ≢ untouched)))
unfolding handle_all handle
service_stop-IsDeaf e s h worker =
    let (deaf, heard) = report-IsDeaf no_error (3 * 1000) 0 s h in
    (stop_events-IsDeaf ((service_stop e).ending) _ heard deaf, service_stop-ending e worker)
