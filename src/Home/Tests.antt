-- ===== src/Home/Tests.antt =====
-- A Java home with one VM, and the theorems on it.
use boundary_event_sdk.Prelude.{
  ◌≡◌, ◌⊎◌, refl, true, none, some, [], ◌∷◌, codes, str_eq, starts_with, if◌then◌else◌, ◌+ℤ◌, ◌-ℤ◌,
  ◌*ℤ◌,
}
use boundary_event_sdk.Text.{strstr}
use boundary_event_sdk.Replace.Memory.{c_string, strcpy, update, put_bytes}
use boundary_event_sdk.Replace.{replace}
use boundary_event_sdk.Home.Locations.{
  java_home, location_home, location_jvm_cfg, location_jvm_configured,
}
use boundary_event_sdk.Home.{
  Files, Kind, directory, regular, HomeData, line_name, lines_from, cut_at, skip_blanks, trim_end,
  add_jvm, checkdir, checkfile, expand, first_file, configured_path, parse_lines, parse, build,
  unusable, find_at, home,
}
use boundary_event_sdk.Home.Libraries.{IsHome}
use boundary_event_sdk.Home.Origin.{In, home_origin}

abbrev pub disk : Files
disk = record {
  stat = λ p.
      if str_eq p (codes "/j")
      then directory
      else if str_eq p (codes "/j/lib/jvm.cfg")
      then regular
      else if str_eq p (codes "/j/lib/amd64/server/libjvm.so")
      then regular
      else Kind.missing;
  content = λ p. some (codes "# VMs\n-server KNOWN\n-client IGNORE\n");
  getenv_java_home = none;
  cpu = codes "amd64";
  stack = λ i. 7;
}

abbrev pub found_home : HomeData
found_home = record {
  path = codes "/j";
  cfgf = some (codes "/j/lib/jvm.cfg");
  jvms = record { name = some (codes "server"); libr = codes "/j/lib/amd64/server/libjvm.so" } ∷ [];
}

names-read : line_name (codes "  -server KNOWN # x\n") ≡ codes "server"
unfolding line_name cut_at skip_blanks trim_end
names-read = refl

build-disk : build disk (codes "/j") ≡ some found_home
unfolding build checkdir checkfile first_file parse parse_lines lines_from line_name cut_at
    skip_blanks trim_end add_jvm configured_path expand replace strcpy update put_bytes c_string
    strstr starts_with str_eq location_jvm_cfg location_jvm_configured ◌+ℤ◌ ◌-ℤ◌ ◌*ℤ◌
build-disk = refl

pub home-disk : home disk (some (codes "/j")) ≡ some found_home
unfolding home find_at unusable str_eq
home-disk = build-disk

home_origin_example :
    ((some (codes "/j") ≡ some found_home.path)
      ⊎ (((unusable disk (some (codes "/j")) ≡ true)
            × (disk.getenv_java_home ≡ some found_home.path))
          ⊎ ((unusable disk (some (codes "/j")) ≡ true)
              × (unusable disk disk.getenv_java_home ≡ true)
              × In found_home.path location_home)))
    × IsHome disk found_home.path found_home
home_origin_example = home_origin disk (some (codes "/j")) found_home home-disk

cfg-found :
    first_file disk (λ t. expand disk t java_home (codes "/j")) (location_jvm_cfg (codes "amd64"))
    ≡ some (some (codes "/j/lib/jvm.cfg"))
unfolding checkfile first_file expand replace strcpy update put_bytes c_string strstr starts_with
    str_eq location_jvm_cfg ◌+ℤ◌ ◌-ℤ◌ ◌*ℤ◌
cfg-found = refl
