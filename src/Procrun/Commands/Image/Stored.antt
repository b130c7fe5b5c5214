-- ===== src/Procrun/Commands/Image/Stored.antt =====
-- The command line that is stored for a service, read again when the service is started.
use boundary_event_sdk.Prelude.{◌≡◌, false, Bytes}
use boundary_event_sdk.Home.Names.{Without}
use boundary_event_sdk.Procrun.Process.Arguments.{tab, ends_marked}

-- What can stand between the quotes of the stored command line
abbrev pub CanStand : Bytes → Type 0
CanStand s = Without b'"' s × Without tab s × (ends_marked false s ≡ false)
