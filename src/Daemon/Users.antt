-- ===== src/Daemon/Users.antt =====
-- `set_user_group`, `set_caps`, `linuxset_user_group` and `checkuser` of
-- src/native/unix/native/jsvc-unix.c: the change to the user that the service runs as. This is the build
-- without libcap, where `set_caps` makes the system call itself.
pub mod Switched
mod Tests
use boundary_event_sdk.Prelude.{
  ℕ, suc, ◌+◌, ◌^◌, Bool, true, false, not, ◌&&◌, ◌||◌, Option, none, some, Bytes, ◌==◌,
  if◌then◌else◌,
}
use boundary_event_sdk.Daemon.Kernel.{Status, exited, signaled, stopped}

-- The calls on the credentials of a process; `true` is success.
pub record Credentials : Type 1 where
  pub World : Type 0
  pub getuid : World → ℕ
  pub geteuid : World → ℕ
  pub getegid : World → ℕ
  pub setuid : ℕ → World → Bool × World
  pub setgid : ℕ → World → Bool × World
  pub initgroups : Bytes → (gid : ℕ) → World → Bool × World
  -- `capset` of the effective, permitted and inheritable set
  pub capset : (caps : ℕ) → World → Bool × World
  -- `prctl(PR_SET_KEEPCAPS, 1, 0, 0, 0)`
  pub keep_caps : World → Bool × World

abbrev cap_dac_read_search : ℕ
cap_dac_read_search = 2

abbrev cap_setgid : ℕ
cap_setgid = 6

abbrev cap_setuid : ℕ
cap_setuid = 7

abbrev cap_net_bind_service : ℕ
cap_net_bind_service = 10

-- `CAPS`
abbrev pub caps_all : ℕ
caps_all = 2 ^ cap_net_bind_service + 2 ^ cap_dac_read_search + 2 ^ cap_setuid + 2 ^ cap_setgid

-- `CAPSMIN`
abbrev pub caps_min : ℕ
caps_min = 2 ^ cap_net_bind_service + 2 ^ cap_dac_read_search

module _ (c : Credentials) where
  open c use {World, getuid, setuid, setgid, initgroups, capset, keep_caps}

  unfoldable pub set_caps : (caps : ℕ) → World → Bool × World
  set_caps caps w = capset caps w

  -- Behind the groups
  unfoldable pub set_user : (uid : ℕ) → World → Bool × World
  set_user uid w = if getuid w == uid then (true, w) else setuid uid w

  -- `initgroups` may fail for a process that is the user already.
  unfoldable pub set_groups : Bytes → (uid gid : ℕ) → World → Bool × World
  set_groups user uid gid w =
      let (ok, w') = initgroups user gid w in
      if not ok
      then (if getuid w' == uid then set_user uid w' else (false, w'))
      else set_user uid w'

  unfoldable pub set_user_group : Option Bytes → (uid gid : ℕ) → World → Bool × World
  set_user_group none uid gid w = (true, w)
  set_user_group (some user) uid gid w =
      let (ok, w') = setgid gid w in if not ok then (false, w') else set_groups user uid gid w'

  -- "make sure they are kept after setuid"; `some` of `caps_set`, or `none` for a failure
  unfoldable pub raise_caps : (uid : ℕ) → World → Option Bool × World
  raise_caps uid w =
      let (ok, w1) = set_caps caps_all w in
      let (kept, w2) = keep_caps w1 in
      if getuid w == 0
      then (if not ok && not (getuid w1 == uid)
          then (none, w1)
          else (if kept then (some true, w2) else (none, w2)))
      else (some false, w)

  -- "set capability to binding port 80 read conf"
  unfoldable pub lower_caps : (caps_set : Bool) → (uid : ℕ) → World → Bool × World
  lower_caps false uid w = (true, w)
  lower_caps true uid w = let (ok, w') = set_caps caps_min w in (ok || getuid w' == uid, w')

  unfoldable pub lower_after : (caps_set : Bool) → (uid : ℕ) → Bool × World → Bool × World
  lower_after caps_set uid (ok, w) = if ok then lower_caps caps_set uid w else (false, w)

  unfoldable pub switch_raised : Bytes → (uid gid : ℕ) → Option Bool × World → Bool × World
  switch_raised user uid gid (none, w) = (false, w)
  switch_raised user uid gid (some caps_set, w) =
      lower_after caps_set uid (set_user_group (some user) uid gid w)

  unfoldable pub linuxset_user_group : Option Bytes → (uid gid : ℕ) → World → Bool × World
  linuxset_user_group none uid gid w = (true, w)
  linuxset_user_group (some user) uid gid w = switch_raised user uid gid (raise_caps uid w)

-- What `checkuser` finds out about a user: `getpwnam`, and how the process that tries the change ended;
-- `none`: it could not be forked
pub record Account : Type 0 where
  pub passwd : Option (ℕ × ℕ)
  pub trial : Option Status

-- `checkuser`: the uid and the gid to run as, or `none` for `false`
abbrev trial_result : ℕ × ℕ → Option Status → Option (ℕ × ℕ)
trial_result ids none = none
trial_result ids (some (exited n)) = if n == 0 then some ids else none
trial_result ids (some (signaled n)) = none
trial_result ids (some (stopped n)) = none

unfoldable pub checkuser : Option Bytes → Account → Option (ℕ × ℕ)
checkuser none a = some (0, 0)
checkuser (some user) a = elim (a.passwd) [ none ↦ none | some ids ↦ trial_result ids (a.trial) ]
