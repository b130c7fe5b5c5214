-- ===== src/Daemon/Users/Tests.antt =====
-- A process with its ids, and the theorem on its change of user.
use boundary_event_sdk.Prelude.{ℕ, ◌≡◌, refl, true, some, codes, ◌==◌, if◌then◌else◌}
use boundary_event_sdk.Daemon.Users.{
  Credentials, linuxset_user_group, set_user_group, set_groups, set_user, raise_caps, lower_caps,
  lower_after, switch_raised, set_caps,
}
use boundary_event_sdk.Daemon.Users.Switched.{Laws, Is, linuxset_user_group-Is}

record Ids : Type 0 where
  uid : ℕ
  euid : ℕ
  egid : ℕ

-- Every call succeeds; `setuid` sets the real user only for root.
abbrev process : Credentials
process = record {
  World = Ids;
  getuid = λ w. w.uid;
  geteuid = λ w. w.euid;
  getegid = λ w. w.egid;
  setuid = λ u w. (true, record w { uid = if w.euid == 0 then u else w.uid; euid = u });
  setgid = λ g w. (true, record w { egid = g });
  initgroups = λ user g w. (true, w);
  capset = λ caps w. (true, w);
  keep_caps = λ w. (true, w);
}

laws : Laws process
laws = record {
  setuid-effective = λ u w h. refl;
  setuid-group = λ u w. refl;
  setgid-effective = λ g w h. refl;
  setgid-user = λ g w. (refl, refl);
  initgroups-ids = λ user g w. (refl, refl, refl);
  capset-ids = λ caps w. (refl, refl, refl);
  keep_caps-user = λ w. (refl, refl);
}

abbrev root : Ids
root = record { uid = 0; euid = 0; egid = 0 }

switch-succeeds : (linuxset_user_group process (some (codes "www")) 33 34 root).0 ≡ true
unfolding linuxset_user_group switch_raised raise_caps lower_after lower_caps set_user_group
    set_groups set_user set_caps
switch-succeeds = refl

linuxset_user_group-Is_example :
    Is process 33 34 (linuxset_user_group process (some (codes "www")) 33 34 root).1
linuxset_user_group-Is_example =
    linuxset_user_group-Is process (codes "www") 33 34 root laws refl switch-succeeds
