-- ===== src/Auth/Registration/Laws.antt =====
-- What a registration leaves, and what the code that it mails is good for.
use photer_api.Base.{
  ℕ, ◌≤◌, ◌≡◌, ◌⊎◌, inl, inr, refl, String, Bool, true, false, none, some, ◌∷◌, arith, ok, Delegate,
  Sequence, DateFns, All, Has, All-map_of, Option-cases, any,
}
use photer_api.Base.Prisma.Calls.{find_first_only, find_first_miss, run_create_fresh}
use photer_api.Notification.{success, bad_request}
use photer_api.User
use photer_api.User.{User, confirm_email}
use photer_api.User.Repository
use photer_api.User.Repository.{
  UserRow, EmailConfirmation, same_user, has_username, has_email, has_confirmation_code, row_of,
  map_to_domain,
}
use photer_api.User.Repository.Reads.{
  unused, find_by_username_lem, find_by_email_lem, find_by_confirmation_code_lem,
}
use photer_api.Auth.Accounts.{Accounts, Transporter, Bcrypt}
use photer_api.Auth.Registration.{
  RegistrationUserCommand, one, registration_email, new_user, registration, confirm_registration,
}
use photer_api.Auth.Recovery.Roundtrip.{HasPassword, validate-HasPassword}
use photer_api.Auth.Validation.{validate_user}

module _ (user : Delegate UserRow same_user) (keys : Sequence UserRow (λ r. r.id)) (dates : DateFns)
    (bcrypt : Bcrypt) (transporter : Transporter) (base_url : String)
    (command : RegistrationUserCommand) (uuid : String) (now : ℕ → ℕ) (s : Accounts) where
  abbrev entity : User
  entity = (new_user dates bcrypt command uuid now).1

  abbrev row : UserRow
  row = row_of (keys.next_id s.users) entity

  confirm_registration-confirmed :
      (later : ℕ → ℕ) (a : Accounts) {r : UserRow} {c : EmailConfirmation}
      → user.find_first (has_confirmation_code uuid) a.users ≡ some r
      → r.email_confirmation ≡ some c
      → c.is_confirmed ≡ true
      → later 1 ≤ c.expiration_date
      → confirm_registration user keys dates bcrypt transporter base_url uuid later a
        ≡ (ok (bad_request (one "Email already confirmed" "code")), a)
  unfolding confirm_registration confirm_email map_to_domain
  confirm_registration-confirmed later a q e done in_time =
      ground (arith, find_by_confirmation_code_lem user (later 0) a.users uuid q)

  -- A name that a user has is refused, then an address that a user has, and nothing is written or
  -- sent; a registration that is not refused has a name and an address that no row has.
  pub registration_taken :
      let run = registration user keys dates bcrypt transporter base_url command uuid now s in
      ((r : UserRow) × Has r s.users
        × (has_username command.username r ≡ true)
        × (run ≡ (ok (bad_request (one "User with such credentials already exists" "login")), s)))
      ⊎ ((r : UserRow) × Has r s.users
          × (has_email command.email r ≡ true)
          × (run ≡ (ok (bad_request (one "User with such credentials already exists" "email")), s)))
      ⊎ (All (λ r. has_username command.username r ≡ false) s.users
          × All (λ r. has_email command.email r ≡ false) s.users)
  unfolding registration
  registration_taken =
      elim (Option-cases (user.find_first (has_username command.username) s.users)) [
        | inr (r, p) ↦
            let (h, k) = user.find_first-some _ s.users r p in
            inl (
              r,
              h,
              k,
              ground (arith, find_by_username_lem user (now 4) s.users command.username p),
            )
        | inl n ↦ elim (Option-cases (user.find_first (has_email command.email) s.users)) [
          | inr (r, p) ↦
              let (h, k) = user.find_first-some _ s.users r p in
              inr (
                inl (
                  r,
                  h,
                  k,
                  ground (
                    arith,
                    find_by_username_lem user (now 4) s.users command.username n,
                    find_by_email_lem user (now 5) s.users command.email p,
                  ),
                ))
          | inl n' ↦ inr (inr (user.find_first-none _ s.users n, user.find_first-none _ s.users n'))
        ]
      ]

  module _ {sent : Bool} (free_name : All (λ r. has_username command.username r ≡ false) s.users)
      (free_email : All (λ r. has_email command.email r ≡ false) s.users)
      (mailed : transporter (registration_email command.email uuid base_url) ≡ ok sent) where
    registration_lem :
        registration user keys dates bcrypt transporter base_url command uuid now s ≡ (
          ok (success none),
          record {
            users = row ∷ s.users;
            outbox = registration_email command.email uuid base_url ∷ s.outbox;
          },
        )
    unfolding registration User.create confirm_email Repository.create
    registration_lem =
        let fresh : any (same_user row) s.users ≡ false =
          unused row s.users (keys.next_id-fresh s.users) free_email in
        ground (
          arith,
          mailed,
          find_by_username_lem user (now 4) s.users command.username
              (find_first_miss user (has_username command.username) s.users free_name),
          find_by_email_lem user (now 5) s.users command.email
              (find_first_miss user (has_email command.email) s.users free_email),
          run_create_fresh user row s.users fresh,
        )

    -- A registration with a free name and address, a code that no row has, and a mail that the server
    -- takes, opens an account: the login with the address and the password answers with the new key,
    -- and exactly one mail is sent, to the address. The account is confirmed already, so that the code
    -- of the mail is refused within the ninety minutes that it is good for.
    pub registration_opens_account :
        (at : ℕ) (later : ℕ → ℕ)
        → All (λ r. has_confirmation_code uuid r ≡ false) s.users
        → later 1 ≤ dates.add (now 2) 1 30
        → let (a, s') =
            registration user keys dates bcrypt transporter base_url command uuid now s in
          (a ≡ ok (success none))
          × (validate_user user bcrypt command.email command.password at s'.users
              ≡ success (some (keys.next_id s.users)))
          × (s'.outbox ≡ registration_email command.email uuid base_url ∷ s.outbox)
          × (confirm_registration user keys dates bcrypt transporter base_url uuid later s'
              ≡ (ok (bad_request (one "Email already confirmed" "code")), s'))
    unfolding User.create confirm_email
    registration_opens_account at later drawn in_time =
        let t = row ∷ s.users in
        let hash = bcrypt.hash command.password "10" in
        let mine : All (HasPassword command.email (keys.next_id s.users) hash) t = (
          inr (refl, refl),
          All-map_of (λ r. has_email command.email r ≡ false)
              (HasPassword command.email (keys.next_id s.users) hash) s.users (λ r h. inl h)
              free_email,
        ) in
        let logs_in =
          validate-HasPassword user bcrypt command.email command.password "10" at t row mine
            (inl refl) (ground arith) in
        let at_row : user.find_first (has_confirmation_code uuid) t ≡ some row =
          find_first_only user (has_confirmation_code uuid) s.users row (ground arith) drawn in
        rw registration_lem (
          refl,
          logs_in,
          refl,
          confirm_registration-confirmed later
              (record {
                users = t;
                outbox = registration_email command.email uuid base_url ∷ s.outbox;
              })
              at_row refl refl in_time,
        )
