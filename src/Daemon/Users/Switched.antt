-- ===== src/Daemon/Users/Switched.antt =====
-- Who the process is behind a change of user.
use boundary_event_sdk.Prelude.{
  ℕ, ◌≡◌, refl, sym, ◌∙◌, Bool, true, false, not, ◌&&◌, ◌==◌, if_elim, Option, none, some, Bytes,
  arith,
}
use boundary_event_sdk.Daemon.Users.{
  Credentials, set_caps, set_user, set_groups, set_user_group, raise_caps, lower_caps, lower_after,
  switch_raised, linuxset_user_group, caps_min, caps_all,
}

module _ (c : Credentials) where
  open c use {World, getuid, geteuid, getegid, setuid, setgid, initgroups, capset, keep_caps}

  -- What the manual pages say: `setuid` and `setgid`, where they succeed, set the effective id of the process, and
  -- the other ones only where it has the privilege; no other call changes an id.
  pub record Laws : Type 0 where
    pub setuid-effective : (u : ℕ) (w : World) → (setuid u w).0 ≡ true → geteuid (setuid u w).1 ≡ u
    pub setuid-group : (u : ℕ) (w : World) → getegid (setuid u w).1 ≡ getegid w
    pub setgid-effective : (g : ℕ) (w : World) → (setgid g w).0 ≡ true → getegid (setgid g w).1 ≡ g
    pub setgid-user :
        (g : ℕ) (w : World)
        → (getuid (setgid g w).1 ≡ getuid w) × (geteuid (setgid g w).1 ≡ geteuid w)
    pub initgroups-ids :
        (user : Bytes) (g : ℕ) (w : World)
        → (getuid (initgroups user g w).1 ≡ getuid w)
          × (geteuid (initgroups user g w).1 ≡ geteuid w)
          × (getegid (initgroups user g w).1 ≡ getegid w)
    pub capset-ids :
        (caps : ℕ) (w : World)
        → (getuid (capset caps w).1 ≡ getuid w)
          × (geteuid (capset caps w).1 ≡ geteuid w)
          × (getegid (capset caps w).1 ≡ getegid w)
    pub keep_caps-user :
        (w : World) → (getuid (keep_caps w).1 ≡ getuid w) × (geteuid (keep_caps w).1 ≡ geteuid w)

  -- The real user is the effective one, as in a program that is not set-user-ID.
  abbrev pub Plain : World → Type 0
  Plain w = geteuid w ≡ getuid w

  -- The process acts as the user, and in the group.
  abbrev pub Is : (uid gid : ℕ) → World → Type 0
  Is uid gid w = (geteuid w ≡ uid) × (getegid w ≡ gid)

  set_user-Is :
      (uid : ℕ) (w : World)
      → Laws
      → Plain w
      → (set_user c uid w).0 ≡ true
      → Is uid (getegid w) (set_user c uid w).1
  unfolding set_user
  set_user-Is uid w laws plain h =
      ground (arith, plain, laws.setuid-effective uid w, laws.setuid-group uid w)

  set_groups-Is :
      (user : Bytes) (uid gid : ℕ) (w : World)
      → Laws
      → Plain w
      → (set_groups c user uid gid w).0 ≡ true
      → Is uid (getegid w) (set_groups c user uid gid w).1
  unfolding set_groups
  set_groups-Is user uid gid w laws plain h =
      let (u, e, g) = laws.initgroups-ids user gid w in
      ground (arith, g, set_user-Is uid (initgroups user gid w).1 laws (e ∙ (plain ∙ sym u)))

  -- If `set_user_group` succeeds, the process acts as the user and in the user's group.
  pub set_user_group-Is :
      (user : Bytes) (uid gid : ℕ) (w : World)
      → Laws
      → Plain w
      → (set_user_group c (some user) uid gid w).0 ≡ true
      → Is uid gid (set_user_group c (some user) uid gid w).1
  unfolding set_user_group
  set_user_group-Is user uid gid w laws plain h =
      let (u, e) = laws.setgid-user gid w in
      ground (
        arith,
        laws.setgid-effective gid w,
        set_groups-Is user uid gid (setgid gid w).1 laws (e ∙ (plain ∙ sym u)),
      )

  lower_caps-Is :
      (caps_set : Bool) (uid gid : ℕ) (w : World)
      → Laws
      → Is uid gid w
      → Is uid gid (lower_caps c caps_set uid w).1
  unfolding lower_caps set_caps
  lower_caps-Is false uid gid w laws is = is
  lower_caps-Is true uid gid w laws is =
      let (u, e, g) = laws.capset-ids caps_min w in (e ∙ is.0, g ∙ is.1)

  lower_after-Is :
      (caps_set : Bool) (uid gid : ℕ) (r : Bool × World)
      → Laws
      → (r.0 ≡ true → Is uid gid r.1)
      → (lower_after c caps_set uid r).0 ≡ true
      → Is uid gid (lower_after c caps_set uid r).1
  unfolding lower_after
  lower_after-Is caps_set uid gid (true, w) laws is h =
      lower_caps-Is caps_set uid gid w laws (is refl)
  lower_after-Is caps_set uid gid (false, w) laws is h = cc

  switch_raised-Is :
      (user : Bytes) (uid gid : ℕ) (r : Option Bool × World)
      → Laws
      → Plain r.1
      → (switch_raised c user uid gid r).0 ≡ true
      → Is uid gid (switch_raised c user uid gid r).1
  unfolding switch_raised
  switch_raised-Is user uid gid (none, w) laws plain h = cc
  switch_raised-Is user uid gid (some caps_set, w) laws plain h =
      lower_after-Is caps_set uid gid (set_user_group c (some user) uid gid w) laws
        (set_user_group-Is user uid gid w laws plain) h

  raise_caps-Plain : (uid : ℕ) (w : World) → Laws → Plain w → Plain (raise_caps c uid w).1
  unfolding raise_caps set_caps
  raise_caps-Plain uid w laws plain =
      let (u, e, g) = laws.capset-ids caps_all w in
      let w1 = (capset caps_all w).1 in
      let (u2, e2) = laws.keep_caps-user w1 in
      let one : Plain w1 = e ∙ (plain ∙ sym u) in
      let two : Plain (keep_caps w1).1 = e2 ∙ (one ∙ sym u2) in
      let P = λ (r : Option Bool × World). Plain r.1 in
      if_elim P (getuid w == 0) _ _
        (λ _.
          if_elim P (not (capset caps_all w).0 && not (getuid w1 == uid)) _ _ (λ _. one)
            (λ _. if_elim P (keep_caps w1).0 _ _ (λ _. two) (λ _. two)))
        (λ _. plain)

  -- If `linuxset_user_group` succeeds for a named user in a process whose real and effective users are the same,
  -- then the effective user is that user and the effective group is the user's, whether it was root before or not.
  pub linuxset_user_group-Is :
      (user : Bytes) (uid gid : ℕ) (w : World)
      → Laws
      → Plain w
      → (linuxset_user_group c (some user) uid gid w).0 ≡ true
      → Is uid gid (linuxset_user_group c (some user) uid gid w).1
  unfolding linuxset_user_group
  linuxset_user_group-Is user uid gid w laws plain h =
      switch_raised-Is user uid gid (raise_caps c uid w) laws (raise_caps-Plain uid w laws plain) h
