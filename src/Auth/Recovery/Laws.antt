-- ===== src/Auth/Recovery/Laws.antt =====
-- A recovery from the request to the login with the new password.
use photer_api.Base.{
  ℕ, ◌+◌, ◌≤◌, ◌≡◌, ◌≢◌, ◌⊎◌, inl, inr, refl, sym, subst, String, true, false, none, some, arith,
  Result, ok, Delegate, DateFns, All, Has, change, All-Has, All-change, Has-change_hit,
}
use photer_api.Base.Prisma.Calls.{find_first_hit}
use photer_api.Notification.{Notification, success}
use photer_api.User.{User, request_password_recovery, update_password, is_password_recovery_expired}
use photer_api.User.Repository.{
  UserRow, PasswordRecovery, same_user, has_id, has_email, has_recovery_code, with_confirmation,
  with_recovery, with_new_recovery, map_to_domain,
}
use photer_api.User.Repository.Reads.{
  find_by_email_lem, find_user_by_recovery_code_lem, update_recovery_hit,
}
use photer_api.Auth.Accounts.{Accounts, Transporter, Bcrypt}
use photer_api.Auth.Recovery.{password_recovery, new_password}

-- A recovery that finds its code in time.
module _ (user : Delegate UserRow same_user) (bcrypt : Bcrypt) (salt password code uuid : String)
    (now : ℕ → ℕ) where
  abbrev pub reset : Accounts → Result (Notification (Unit {0})) × Accounts
  reset =
      new_password user bcrypt salt (record { new_password = password; recovery_code = code }) uuid
        now

  -- The entity that is written back for a row.
  abbrev pub renewed : UserRow → User
  renewed x = record (map_to_domain (now 0) (with_recovery x)) {
    password = some (bcrypt.hash password salt);
    updated_at = now 2;
    recovery_code = some uuid;
    recovery_expiration = some 0;
  }

  pub reset_lem :
      {x : UserRow} {p : PasswordRecovery} (a : Accounts)
      → user.find_first (has_recovery_code code) a.users ≡ some x
      → x.password_recovery ≡ some p
      → now 1 ≤ p.expiration_date
      → reset a ≡ (
        ok (success none),
        record a { users = change (has_id x.id) (with_new_recovery (renewed x)) a.users },
      )
  unfolding new_password update_password map_to_domain is_password_recovery_expired
  reset_lem {x} a q mine h =
      let (y, q', k, b) =
        find_first_hit user (has_id x.id) a.users (user.find_first-some _ a.users x q).0
          (ground arith) in
      ground (
        arith,
        find_user_by_recovery_code_lem user (now 0) a.users code q,
        update_recovery_hit user (renewed x) a.users q',
      )

-- The request for a code, from an address that one user has.
module _ (user : Delegate UserRow same_user) (email code : String) (s : Accounts)
    (r : UserRow) where
  -- No other row has the address or the code.
  abbrev pub IsReady : UserRow → Type 0
  IsReady x = ((has_email email x ≡ false) ⊎ (x.id ≡ r.id)) × (has_recovery_code code x ≡ false)

  -- After the request, the code is the user's.
  abbrev pub IsRequested : PasswordRecovery → UserRow → Type 0
  IsRequested p x =
      ((x.id ≢ r.id) × (has_email email x ≡ false) × (has_recovery_code code x ≡ false))
      ⊎ ((x.id ≡ r.id) × (x.password_recovery ≡ some p))

  module _ (dates : DateFns) (transporter : Transporter) (base_url : String) (now : ℕ → ℕ) where
    abbrev pub requested : User
    requested =
        request_password_recovery dates code (λ i. now (i + 1))
          (map_to_domain (now 0) (with_confirmation r))

    abbrev pub asked : Result (Notification (Unit {0})) × Accounts
    asked = password_recovery user dates transporter base_url email code now s

    abbrev pub request : PasswordRecovery
    request = record { recovery_code = code; expiration_date = dates.add (now 1) 1 30 }

    pub asked_users :
        user.find_first (has_email email) s.users ≡ some r
        → asked.1.users ≡ change (has_id r.id) (with_new_recovery requested) s.users
    unfolding password_recovery request_password_recovery map_to_domain
    asked_users e =
        let (x, q, k, b) =
          find_first_hit user (has_id r.id) s.users (user.find_first-some _ s.users r e).0
            (ground arith) in
        ground (
          arith,
          find_by_email_lem user (now 0) s.users email e,
          update_recovery_hit user requested s.users q,
        )

    pub asked-IsRequested :
        user.find_first (has_email email) s.users ≡ some r
        → All IsReady s.users
        → All (IsRequested request) asked.1.users
    unfolding request_password_recovery map_to_domain
    asked-IsRequested e ready = subst (All (IsRequested request)) (sym (asked_users e)) (
        All-change IsReady (IsRequested request) (has_id r.id) (with_new_recovery requested) s.users
          (λ x u p. inr (ground arith, refl)) (λ x u p. inl (ground arith)) ready)

    -- The code is found, at the user.
    pub asked_finds :
        user.find_first (has_email email) s.users ≡ some r
        → All IsReady s.users
        → (x : UserRow) × (user.find_first (has_recovery_code code) asked.1.users ≡ some x)
          × (x.id ≡ r.id)
          × (x.password_recovery ≡ some request)
          × (has_email email (with_new_recovery requested r) ≡ true)
          × Has (with_new_recovery requested r) asked.1.users
    unfolding request_password_recovery map_to_domain
    asked_finds e ready =
        let here : Has (with_new_recovery requested r) asked.1.users =
          subst (Has (with_new_recovery requested r)) (sym (asked_users e)) (
            Has-change_hit (has_id r.id) (with_new_recovery requested) s.users
              (user.find_first-some _ s.users r e).0 (ground arith)) in
        let (x, q, k, b) =
          find_first_hit user (has_recovery_code code) asked.1.users here (ground arith) in
        let mine = All-Has (IsRequested request) asked.1.users (asked-IsRequested e ready) k in
        (
          x,
          q,
          ground (arith, mine),
          ground (arith, mine),
          ground (arith, user.find_first-some _ s.users r e),
          here,
        )
