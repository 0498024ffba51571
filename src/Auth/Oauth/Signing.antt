-- ===== src/Auth/Oauth/Signing.antt =====
-- What a login through a provider leaves, and whom it signs in.
use photer_api.Base.{
  ℕ, ◌+◌, ◌≡◌, inl, inr, refl, ◌∙◌, String, true, false, some, Option, List, ◌∷◌, arith, ok, Result,
  points, codes, varchar_takes-le, varchar_cut-le, ◌≤◌, Delegate, Sequence, DateFns, All, Has,
  All-Has, change-miss,
}
use photer_api.Base.Prisma.Calls.{
  find_first_hit, find_first_miss, find_first_only, run_create_fresh,
}
use photer_api.Auth.Accounts.Plain.{same_text}
use photer_api.User.{User, confirm_email}
use photer_api.User
use photer_api.User.Repository.{
  UserRow, same_user, has_username, has_email, row_of, with_confirmation, map_to_domain,
}
use photer_api.User.Repository as Users
use photer_api.User.Repository.Reads.{unused, find_by_username_lem, find_by_email_lem}
use photer_api.Auth.Accounts.{Email, Transporter}
use photer_api.Auth.Oauth.Repository.{
  ProviderType, OauthAccount, same_account, is_account, create,
  find_by_provider_type_and_provider_id,
}
use photer_api.Auth.Oauth.{
  OauthState, numbered, created_email, provider_user, username_from_provider, handle_oauth_login,
  create_user_when_registration_by_provider,
}
use photer_api.Auth.Oauth.Returning.{numbered-ne, linked, linked-is_account, unlinked, again}

module _ (user : Delegate UserRow same_user) (keys : Sequence UserRow (λ r. r.id)) (dates : DateFns)
    (oauth_account : Delegate OauthAccount same_account)
    (account_keys : Sequence OauthAccount (λ a. a.id)) (transporter : Transporter)
    (provider : ProviderType) (provider_id email : String) where
  module _ (username display_name : Option String) (uuid : String) (draw : ℕ) (now : ℕ → ℕ)
      (s : OauthState)
      (first : All (λ a. is_account provider provider_id a ≡ false) s.oauth_accounts) where
    abbrev pub run : Result (Option User) × OauthState
    run =
        handle_oauth_login user keys dates oauth_account account_keys transporter provider
          provider_id email username display_name uuid draw now s

    create_lem :
        (user_id : ℕ)
        → create oauth_account account_keys user_id provider provider_id email s.oauth_accounts ≡ (
          ok (linked account_keys provider provider_id email user_id s.oauth_accounts),
          linked account_keys provider provider_id email user_id s.oauth_accounts
              ∷ s.oauth_accounts,
        )
    unfolding create
    create_lem user_id =
        run_create_fresh oauth_account
          (linked account_keys provider provider_id email user_id s.oauth_accounts) s.oauth_accounts
          (unlinked (linked account_keys provider provider_id email user_id s.oauth_accounts)
            s.oauth_accounts (account_keys.next_id-fresh s.oauth_accounts) first)

    -- The login of the same person again, at another time and under any name.
    abbrev pub rerun :
        (username' display_name' : Option String) (uuid' : String) (draw' : ℕ) (later : ℕ → ℕ)
        → Result (Option User) × OauthState
    rerun username' display_name' uuid' draw' later =
        handle_oauth_login user keys dates oauth_account account_keys transporter provider
          provider_id email username' display_name' uuid' draw' later run.1

    rerun_lem :
        {t : List UserRow} {m : List Email} {k : ℕ} {u : User} {r : UserRow}
        → run ≡ (
          ok (some u),
          record {
            accounts = record { users = t; outbox = m };
            oauth_accounts =
                linked account_keys provider provider_id email k s.oauth_accounts
                ∷ s.oauth_accounts;
          },
        )
        → user.find_first (has_email email) t ≡ some r
        → (username' display_name' : Option String) (uuid' : String) (draw' : ℕ) (later : ℕ → ℕ)
        → rerun username' display_name' uuid' draw' later
          ≡ (ok (some (map_to_domain (later 0) (with_confirmation r))), run.1)
    rerun_lem {t} {m} {k} {u} {r} e q username' display_name' uuid' draw' later = rw e (
        again user keys dates oauth_account account_keys transporter provider provider_id email
          username' display_name' uuid' draw' later
          (record {
            accounts = record { users = t; outbox = m };
            oauth_accounts =
                linked account_keys provider provider_id email k s.oauth_accounts
                ∷ s.oauth_accounts;
          })
          (linked account_keys provider provider_id email k s.oauth_accounts) q (inl refl)
          (linked-is_account account_keys provider provider_id email k s.oauth_accounts)
        ∙ ground (
          arith,
          linked-is_account account_keys provider provider_id email k s.oauth_accounts,
          change-miss (is_account provider provider_id) (λ b. record b { email = email })
              s.oauth_accounts first,
        ))

    linking :
        {r : UserRow}
        → user.find_first (has_email email) s.accounts.users ≡ some r
        → run ≡ (
          ok (some (map_to_domain (now 0) (with_confirmation r))),
          record s {
            oauth_accounts =
                linked account_keys provider provider_id email r.id s.oauth_accounts
                ∷ s.oauth_accounts;
          },
        )
    unfolding handle_oauth_login find_by_provider_type_and_provider_id map_to_domain
    linking {r} e = ground (
      arith,
      find_by_email_lem user (now 0) s.accounts.users email e,
      find_first_miss oauth_account (is_account provider provider_id) s.oauth_accounts first,
      create_lem r.id,
    )

    -- The first login of a provider's account whose address a user has: it signs in that user, and
    -- links the account to them and writes nothing else. A later login of the account signs in the
    -- same user and changes nothing.
    pub oauth_login_links :
        {r : UserRow}
        → user.find_first (has_email email) s.accounts.users ≡ some r
        → (username' display_name' : Option String) (uuid' : String) (draw' : ℕ) (later : ℕ → ℕ)
        → (run ≡ (
          ok (some (map_to_domain (now 0) (with_confirmation r))),
          record s {
            oauth_accounts =
                linked account_keys provider provider_id email r.id s.oauth_accounts
                ∷ s.oauth_accounts;
          },
        ))
          × (rerun username' display_name' uuid' draw' later
              ≡ (ok (some (map_to_domain (later 0) (with_confirmation r))), run.1))
    oauth_login_links {r} e username' display_name' uuid' draw' later =
        (linking e, rerun_lem (linking e) e username' display_name' uuid' draw' later)

    module _ (unknown : All (λ r. has_email email r ≡ false) s.accounts.users)
        (mailed : (recipient name : String)
          → transporter (created_email recipient name) ≡ ok true) where
      abbrev name : String
      name = username_from_provider username display_name email

      abbrev pub row_named : String → UserRow
      row_named n =
          row_of (keys.next_id s.accounts.users)
            ((provider_user user keys dates n email uuid (λ i. now (i + 2))).1)

      owner :
          (n : String)
          → user.find_first (has_email email) (row_named n ∷ s.accounts.users) ≡ some (row_named n)
      unfolding User.create confirm_email
      owner n =
          find_first_only user (has_email email) s.accounts.users (row_named n) (same_text email)
            unknown

      registered :
          points (codes name) ≤ 30
          → All (λ r. has_username name r ≡ false) s.accounts.users
          → run ≡ (
            ok (some (map_to_domain (now 6) (with_confirmation (row_named name)))),
            record {
              accounts = record {
                users = row_named name ∷ s.accounts.users;
                outbox = created_email email name ∷ s.accounts.outbox;
              };
              oauth_accounts =
                  linked account_keys provider provider_id email
                    (keys.next_id s.accounts.users)
                    s.oauth_accounts
                  ∷ s.oauth_accounts;
            },
          )
      unfolding handle_oauth_login find_by_provider_type_and_provider_id map_to_domain
          create_user_when_registration_by_provider User.create confirm_email Users.create
      registered short free =
          let row = row_named name in
          let t = s.accounts.users in
          ground (
            arith,
            mailed email name,
            varchar_takes-le 30 name short,
            varchar_cut-le 30 name short,
            find_by_email_lem user (now 0) t email
                (find_first_miss user (has_email email) t unknown),
            find_by_username_lem user (now 1) t name
                (find_first_miss user (has_username name) t free),
            find_by_username_lem user (now 6) (row ∷ t) name
                (find_first_only user (has_username name) t row (same_text name) free),
            find_first_miss oauth_account (is_account provider provider_id) s.oauth_accounts first,
            run_create_fresh user row t (unused row t (keys.next_id-fresh t) unknown),
            create_lem (keys.next_id t),
          )

      taken :
          {r : UserRow}
          → points (codes (numbered name draw)) ≤ 30
          → user.find_first (has_username name) s.accounts.users ≡ some r
          → (x : UserRow) × Has x s.accounts.users
            × (has_username name x ≡ true)
            × (run ≡ (
              ok (some (map_to_domain (now 6) (with_confirmation x))),
              record {
                accounts = record {
                  users = row_named (numbered name draw) ∷ s.accounts.users;
                  outbox = created_email x.email x.username ∷ s.accounts.outbox;
                };
                oauth_accounts =
                    linked account_keys provider provider_id email x.id s.oauth_accounts
                    ∷ s.oauth_accounts;
              },
            ))
      unfolding handle_oauth_login find_by_provider_type_and_provider_id map_to_domain
          create_user_when_registration_by_provider User.create confirm_email Users.create
      taken {r} short e =
          let row = row_named (numbered name draw) in
          let t = s.accounts.users in
          let (h, k) = user.find_first-some (has_username name) t r e in
          let (x, q, l, b) = find_first_hit user (has_username name) (row ∷ t) {r = r} (inr h) k in
          let old : Has x t = elim l [
            | inl z ↦ absurd (ground (arith, z, b, numbered-ne name draw))
            | inr z ↦ z
          ] in
          (
            x,
            old,
            b,
            ground (
              arith,
              mailed x.email x.username,
              varchar_takes-le 30 (numbered name draw) short,
              varchar_cut-le 30 (numbered name draw) short,
              find_by_email_lem user (now 0) t email
                  (find_first_miss user (has_email email) t unknown),
              find_by_username_lem user (now 1) t name e,
              find_by_username_lem user (now 6) (row ∷ t) name q,
              find_first_miss oauth_account (is_account provider provider_id) s.oauth_accounts
                  first,
              run_create_fresh user row t (unused row t (keys.next_id-fresh t) unknown),
              create_lem x.id,
            ),
          )

      -- Where the mail server takes the mail, the first login of a provider's account whose address
      -- and name no user has, under a name of at most 30 characters, which is what its column holds:
      -- it opens an account with the address, links the provider's account to it and mails the
      -- address once. It signs in the new user, and so does each later login of the account, which
      -- changes nothing.
      pub oauth_login_registers :
          points (codes name) ≤ 30
          → All (λ r. has_username name r ≡ false) s.accounts.users
          → (username' display_name' : Option String) (uuid' : String) (draw' : ℕ) (later : ℕ → ℕ)
          → let row = row_named name in
            (run ≡ (
              ok (some (map_to_domain (now 6) (with_confirmation row))),
              record {
                accounts = record {
                  users = row ∷ s.accounts.users;
                  outbox = created_email email name ∷ s.accounts.outbox;
                };
                oauth_accounts =
                    linked account_keys provider provider_id email row.id s.oauth_accounts
                    ∷ s.oauth_accounts;
              },
            ))
            × (rerun username' display_name' uuid' draw' later
                ≡ (ok (some (map_to_domain (later 0) (with_confirmation row))), run.1))
      oauth_login_registers short free username' display_name' uuid' draw' later =
          let row = row_named name in
          let e = registered short free in
          (e, rerun_lem e (owner name) username' display_name' uuid' draw' later)

      -- Where the mail server takes the mail, the first login of a provider's account whose address
      -- no user has, under a name that a user has and that with its number has at most 30 characters,
      -- which is what its column holds: it signs in a user who has the name and another address,
      -- links the provider's account to that user and mails them. The account that it opens, under
      -- the numbered name, is the one that a later login signs in.
      pub oauth_login_taken_name :
          {r : UserRow}
          → points (codes (numbered name draw)) ≤ 30
          → user.find_first (has_username name) s.accounts.users ≡ some r
          → (username' display_name' : Option String) (uuid' : String) (draw' : ℕ) (later : ℕ → ℕ)
          → (x : UserRow) × Has x s.accounts.users
            × (has_username name x ≡ true)
            × (has_email email x ≡ false)
            × (run ≡ (
              ok (some (map_to_domain (now 6) (with_confirmation x))),
              record {
                accounts = record {
                  users = row_named (numbered name draw) ∷ s.accounts.users;
                  outbox = created_email x.email x.username ∷ s.accounts.outbox;
                };
                oauth_accounts =
                    linked account_keys provider provider_id email x.id s.oauth_accounts
                    ∷ s.oauth_accounts;
              },
            ))
            × (rerun username' display_name' uuid' draw' later ≡ (
              ok (
                  some
                    (map_to_domain (later 0) (with_confirmation (row_named (numbered name draw))))),
              run.1,
            ))
      oauth_login_taken_name short q username' display_name' uuid' draw' later =
          let row = row_named (numbered name draw) in
          let (x, h, k, e) = taken short q in
          (
            x,
            h,
            k,
            All-Has (λ r. has_email email r ≡ false) s.accounts.users unknown h,
            e,
            rerun_lem e (owner (numbered name draw)) username' display_name' uuid' draw' later,
          )
