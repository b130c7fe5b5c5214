-- ===== src/Procrun/Service/Endings.antt =====
-- How `serviceMain` ends.
use boundary_event_sdk.Prelude.{ℕ, ◌+◌, ◌≡◌, length, true, ◌==◌, if◌then◌else◌}
use boundary_event_sdk.Procrun.Service.{Service, Run, initial}
use boundary_event_sdk.Procrun.Service.Start.{service_start}
use boundary_event_sdk.Procrun.Service.Reports.{hooked_code, late, IsHeard, Ends}

-- The code of the last report of `serviceMain`: that of the start when it fails, else the exit code of the JVM.
abbrev pub last_code : Run → ℕ
last_code run = let rc = (service_start (run.start)).rv in if rc == 0 then run.vm_exit_code else rc

-- The code that is reported last of all: an exit hook that reports at all reports 0.
abbrev pub final_code : Run → ℕ
final_code run = hooked_code (run.vm_exit_code) (run.hooks) (last_code run)

-- What is known of a service when `serviceMain` is at its end
abbrev Done : Run → Service × ℕ → Type 0
Done run r =
    Ends (last_code run) (r.0.reported) × IsHeard (r.0) × (r.1 ≡ (service_start (run.start)).rv)

-- The number of reports that may take a check point
abbrev pub reports_of : Run → ℕ
reports_of run = length (run.events) + (late run + (length (run.hooks) + 6))

-- `initial`, once the handler is registered
abbrev listening : Service
listening = record (initial true) { registered = true }
