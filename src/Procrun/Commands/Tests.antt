-- ===== src/Procrun/Commands/Tests.antt =====
-- The commands on small inputs.
use boundary_event_sdk.Prelude.{◌≡◌, refl, true, false, none, some, [], ◌∷◌, codes}
use boundary_event_sdk.Procrun.Commands.{
  Answers, Request, set_names, set_options, save_configuration, install_service, automatic,
  prunsrv_main, dispatch, update, install, startup_change,
}
use boundary_event_sdk.Procrun.Commands.Image.{
  run_argument, service_image, image_path, quote_inplace, has_space, strlcpy, strlcat,
}

abbrev all_well : Answers
all_well = record {
  manager_opens = true;
  service_opens = true;
  installs = true;
  names_set = true;
  options_set = true;
  saves = true;
  deletes = true;
  stops = true;
  continues = true;
}

abbrev automatic_tomcat : Request
automatic_tomcat = record {
  application = codes "My Tomcat";
  exe_path = codes "C:\\bin";
  executable = codes "tomcat9";
  install = none;
  has_startup = true;
  is_auto = true;
  is_manual = false;
}

updates :
    prunsrv_main (some (5, automatic_tomcat)) true all_well 0 true
    ≡ (0, set_names ∷ set_options automatic ∷ save_configuration ∷ [])
unfolding prunsrv_main dispatch update startup_change
updates = refl

-- An update of a service that does not exist installs it, with both parts of the image quoted as needed.
installs_instead :
    prunsrv_main
      (some (5, automatic_tomcat))
      false
      (record all_well { service_opens = false })
      0
      true
    ≡ (
      0,
      install_service (codes "C:\\bin\\tomcat9.exe \"//RS//My Tomcat\"") automatic
          ∷ set_names
          ∷ save_configuration
          ∷ [],
    )
unfolding prunsrv_main dispatch update install service_image image_path run_argument quote_inplace
    has_space strlcpy strlcat
installs_instead = refl

-- Installing answers success although its configuration is not saved.
installs_unsaved :
    (prunsrv_main (some (6, automatic_tomcat)) false (record all_well { saves = false }) 0 true).0
    ≡ 0
unfolding prunsrv_main dispatch install
installs_unsaved = refl
