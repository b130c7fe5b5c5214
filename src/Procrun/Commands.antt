-- ===== src/Procrun/Commands.antt =====
-- The commands of src/native/windows/apps/prunsrv/prunsrv.c and its `main`, over what the service
-- manager answers, as the calls that they make and what they return. The service's name and the paths
-- are lists of units.
pub mod Image
pub mod Tests
use boundary_event_sdk.Prelude.{
  ℕ, zero, suc, ◌+◌, ltb, Bool, true, false, not, ◌&&◌, ◌||◌, Option, none, some, List, [], ◌∷◌,
  ◌++◌, Bytes, codes, ◌==◌, if◌then◌else◌,
}
use boundary_event_sdk.Procrun.Commands.Image.{service_image}

-- `SERVICE_DEMAND_START`, `SERVICE_AUTO_START` and `SERVICE_NO_CHANGE`
pub data Startup : Type 0 where
  demand automatic unchanged : Startup

-- The answers of the service manager and of the registry.
pub record Answers : Type 0 where
  pub manager_opens : Bool
  pub service_opens : Bool
  pub installs : Bool
  pub names_set : Bool
  pub options_set : Bool
  pub saves : Bool
  pub deletes : Bool
  pub stops : Bool
  pub continues : Bool

-- What of the command line the commands read; `startup` is given with `--Startup`, and the two tests
-- say that it is `auto` or `manual`.
pub record Request : Type 0 where
  pub application : Bytes
  pub exe_path : Bytes
  pub executable : Bytes
  pub install : Option Bytes
  pub has_startup : Bool
  pub is_auto : Bool
  pub is_manual : Bool

-- The calls that change a service or its configuration.
pub data Call : Type 0 where
  install_service : (image : Bytes) → Startup → Call
  set_names delete_service delete_registry stop_service continue_service save_configuration : Call
  set_options : Startup → Call

-- `docmdInstallService`; what `apxServiceSetNames` and `saveConfiguration` answer is not looked at.
unfoldable pub install : Answers → Request → Bool × List Call
unfolding service_image
install a r =
    let startup = if r.has_startup && r.is_auto then automatic else demand in
    let call =
      install_service (service_image (r.install) (r.exe_path) (r.executable) (r.application))
        startup in
    if not (a.manager_opens)
    then (false, [])
    else if a.installs
    then (true, call ∷ set_names ∷ save_configuration ∷ [])
    else (false, call ∷ [])

-- `docmdDeleteService`
unfoldable pub delete : Answers → Bool × List Call
delete a =
    if not (a.manager_opens && a.service_opens)
    then (false, [])
    else if a.deletes
    then (true, delete_service ∷ delete_registry ∷ [])
    else (false, delete_service ∷ [])

-- `docmdStopService` and `docmdStartService`
unfoldable pub stop : Answers → Bool × List Call
stop a = if a.manager_opens && a.service_opens then (a.stops, stop_service ∷ []) else (false, [])

unfoldable pub start : Answers → Bool × List Call
start a =
    if a.manager_opens && a.service_opens then (a.continues, continue_service ∷ []) else (false, [])

unfoldable pub startup_change : Request → Startup
startup_change r =
    if r.has_startup
    then if r.is_auto then automatic else if r.is_manual then demand else unchanged
    else unchanged

-- `docmdUpdateService`: a service that cannot be opened is installed.
unfoldable pub update : Answers → Request → Bool × List Call
unfolding install startup_change
update a r =
    if not (a.manager_opens)
    then (false, [])
    else if not (a.service_opens)
    then install a r
    else if not (a.names_set)
    then (false, set_names ∷ [])
    else if not (a.options_set)
    then (false, set_names ∷ set_options (startup_change r) ∷ [])
    else (a.saves, set_names ∷ set_options (startup_change r) ∷ save_configuration ∷ [])

-- `docmdDebugService` and `docmdRunService`, by the exit value of `serviceMain` and by whether the
-- dispatcher starts
unfoldable pub debug : (exit_value : ℕ) → Bool × List Call
debug exit_value = (exit_value == 0, [])

unfoldable pub run_service : (dispatches : Bool) → Bool × List Call
run_service dispatches = (dispatches, [])

abbrev exit_by : ℕ → Bool × List Call → ℕ × List Call
exit_by rv (done, calls) = ((if done then 0 else rv), calls)

-- The `switch` of `main`
unfoldable pub dispatch :
    (index : ℕ) (a : Answers) (r : Request) (exit_value : ℕ) (dispatches : Bool) → ℕ × List Call
unfolding install delete stop start update debug run_service
dispatch index a r exit_value dispatches =
    if index == 1
    then exit_by 3 (debug exit_value)
    else if index == 2
    then exit_by 4 (run_service dispatches)
    else if index == 3
    then exit_by 5 (start a)
    else if index == 4
    then exit_by 6 (stop a)
    else if index == 5
    then exit_by 7 (update a r)
    else if index == 6
    then exit_by 8 (install a r)
    else if index == 7
    then exit_by 9 (delete a)
    else if index == 8 || index == 9
    then (0, [])
    else (99, [])

-- `main` after the `pause` commands: the exit code and the calls. `parsed` is the command's index and the
-- request, when `apxCmdlineParse` gives them; `loads` is what `loadConfiguration` answers.
unfoldable pub prunsrv_main :
    (parsed : Option (ℕ × Request)) (loads : Bool) (a : Answers) (exit_value : ℕ)
    (dispatches : Bool)
    → ℕ × List Call
unfolding dispatch
prunsrv_main none loads a exit_value dispatches = (1, [])
prunsrv_main (some (index, r)) loads a exit_value dispatches =
    if ltb index 6 && not loads && ltb index 5
    then (2, [])
    else dispatch index a r exit_value dispatches
