-- ===== src/Auth/Oauth.antt =====
-- The login through a provider: `handleOAuthLogin` and `createUserWhenRegistrationByProvider` of
-- apps/gateway/src/features/auth/application/services/auth-service.ts, with
-- apps/gateway/src/features/auth/infrastructure/oauth-account.repository.ts and the strategies of
-- apps/gateway/src/core/strategies that hand them a provider's profile. `draw` is
-- `Math.floor(Math.random() * 1000)` and `now` numbers the readings of the clock in one run.
pub mod Repository
pub mod Returning
pub mod Signing
mod Examples
use Prim.Native.Char.{code}
use Prim.Native.String.{◌++◌ as ◌<>◌}
use photer_api.Base.{
  ℕ, ◌+◌, String, Bool, true, false, ◌&&◌, ◌||◌, Option, none, some, List, [], ◌∷◌, ◌==◌, ◌===◌,
  truthy, Action, Result, ok, throws, error, rejection, varchar_takes, varchar_cut, pure, ◌>>=◌,
  ◌>>◌, Delegate, Sequence, DateFns, run_update, run_create, if◌then◌else◌,
}
use photer_api.Auth.Oauth.Repository.{
  ProviderType, google, github, OauthAccount, same_account, find_by_provider_type_and_provider_id,
  create, update_email,
}
use photer_api.Payments.Text.{decimal}
use photer_api.User.{User, confirm_email}
use photer_api.User
use photer_api.User.Repository.{
  UserRow, same_user, or_else, find_by_id, find_by_username, find_by_email,
}
use photer_api.User.Repository as Users
use photer_api.Auth.Accounts.{
  Accounts, Email, oauth_registration_page, Transporter, on_users, send_email,
}
use photer_api.Auth.Validation.{unauthorized_exception}

pub record OauthState : Type 0 where
  pub accounts : Accounts
  pub oauth_accounts : List OauthAccount

abbrev pub on_accounts : {A : Type 0} → Action Accounts A → Action OauthState A
on_accounts m s = let (r, a) = m s.accounts in (r, record s { accounts = a })

abbrev pub on_oauth_accounts : {A : Type 0} → Action (List OauthAccount) A → Action OauthState A
on_oauth_accounts m s = let (r, t) = m s.oauth_accounts in (r, record s { oauth_accounts = t })

-- `email.split('@')[0]`
unfoldable pub local_part : String → String
local_part String.[] = ""
local_part (String.◌∷◌ c s) =
    let rest = local_part s in if code c == b'@' then "" else String.◌∷◌ c rest

-- `username || displayName || email.split('@')[0]`; `none` is `undefined`.
unfoldable pub username_from_provider : (username display_name : Option String) → String → String
username_from_provider username display_name email =
    if truthy (or_else username "")
    then or_else username ""
    else if truthy (or_else display_name "")
    then or_else display_name ""
    else local_part email

abbrev pub numbered : String → ℕ → String
numbered name draw = name <> String.◌∷◌ "-" (decimal draw)

abbrev unique_username : String → ℕ → Option User → String
unique_username name draw none = name
unique_username name draw (some existing) = numbered name draw

abbrev pub created_email : String → String → Email
created_email recipient username = record {
  recipient = recipient;
  template = oauth_registration_page username;
  subject = "Account Created Successfully";
}

module _ (user : Delegate UserRow same_user) (keys : Sequence UserRow (λ r. r.id))
    (dates : DateFns) where
  -- The new entity is confirmed at once.
  abbrev pub provider_user :
      String → String → (uuid : String) (now : ℕ → ℕ) → Result (Unit {0}) × User
  provider_user username email uuid now =
      confirm_email (now 3) (User.create dates username none email uuid now)

  -- `User.username` is a `VarChar(30)`. The name of a registration has passed its DTO; this one has
  -- not been checked.
  abbrev create_named : User → Action (List UserRow) (Unit {0})
  create_named u t =
      if varchar_takes 30 u.username
      then Users.create user keys (record u { username = varchar_cut 30 u.username }) t
      else (throws (rejection "The provided value for the column is too long"), t)

  abbrev save_user : Result (Unit {0}) × User → Action (List UserRow) (Unit {0})
  save_user (throws e, u) = λ t. (throws e, t)
  save_user (ok _, u) = create_named u

  unfoldable pub create_user_when_registration_by_provider :
      String → String → (uuid : String) (draw : ℕ) (now : ℕ → ℕ) → Action (List UserRow) (Unit {0})
  create_user_when_registration_by_provider name email uuid draw now t =
      let username = unique_username name draw (find_by_username user name (now 0) t) in
      save_user (provider_user username email uuid (λ i. now (i + 1))) t

  module _ (oauth_account : Delegate OauthAccount same_account)
      (account_keys : Sequence OauthAccount (λ a. a.id)) (transporter : Transporter) where
    -- Step 5 behind `createUserWhenRegistrationByProvider`, by what `findByUsername` answers.
    abbrev link_new : ProviderType → String → String → Option User → Action OauthState (Option User)
    link_new provider provider_id email none =
        λ s. (throws (error "Cannot read properties of null (reading 'getId')"), s)
    link_new provider provider_id email (some new_user) = do
      on_oauth_accounts (create oauth_account account_keys new_user.id provider provider_id email)
      on_accounts (send_email transporter (created_email new_user.email new_user.username))
      pure (some new_user)

    abbrev register :
        ProviderType
        → String
        → String
        → String
        → (uuid : String) (draw : ℕ) (now : ℕ → ℕ) → Action OauthState (Option User)
    register provider provider_id email name uuid draw now s =
        let (r, s') =
          on_accounts
            (on_users (create_user_when_registration_by_provider name email uuid draw now)) s in
        elim r [
          | throws e ↦ (throws e, s')
          | ok _ ↦
              link_new provider provider_id email
                (find_by_username user name (now 5) s'.accounts.users) s'
        ]

    -- `foundUser ?? (await findById(oAuthAccount.userId))`
    abbrev owner_of : Option User → ℕ → (now : ℕ) → List UserRow → Option User
    owner_of (some found_user) user_id now t = some found_user
    owner_of none user_id now t = find_by_id user user_id now t

    unfoldable pub handle_oauth_login :
        ProviderType
        → String
        → String
        → (username display_name : Option String) (uuid : String) (draw : ℕ) (now : ℕ → ℕ)
        → Action OauthState (Option User)
    unfolding username_from_provider
    handle_oauth_login provider provider_id email username display_name uuid draw now s =
        let found_user = find_by_email user email (now 0) s.accounts.users in
        elim (find_by_provider_type_and_provider_id oauth_account provider provider_id
          s.oauth_accounts) [
            | some account ↦
                (do
                  on_oauth_accounts (update_email oauth_account provider_id provider email)
                  pure (owner_of found_user account.user_id (now 1) s.accounts.users))
                  s
            | none ↦ elim found_user [
              | some u ↦
                  (do
                    on_oauth_accounts
                        (create oauth_account account_keys u.id provider provider_id email)
                    pure (some u))
                    s
              | none ↦
                  register provider provider_id email
                    (username_from_provider username display_name email) uuid draw
                    (λ i. now (i + 1)) s
            ]
          ]

-- The part of passport's profile that the strategies read; `none` is `undefined`.
pub record PassportProfile : Type 0 where
  pub id : String
  pub display_name : Option String
  pub username : Option String
  pub emails : Option (List String)

abbrev first_email : Option (List String) → Option String
first_email none = none
first_email (some []) = none
first_email (some (email ∷ emails)) = some email

module _ (user : Delegate UserRow same_user) (keys : Sequence UserRow (λ r. r.id)) (dates : DateFns)
    (oauth_account : Delegate OauthAccount same_account)
    (account_keys : Sequence OauthAccount (λ a. a.id)) (transporter : Transporter) where
  abbrev validate_profile :
      ProviderType
      → PassportProfile
      → (uuid : String) (draw : ℕ) (now : ℕ → ℕ) → Action OauthState (Option User)
  validate_profile provider profile uuid draw now s = elim (first_email profile.emails) [
    | none ↦ (throws unauthorized_exception, s)
    | some email ↦
        handle_oauth_login user keys dates oauth_account account_keys transporter provider
          profile.id email profile.username profile.display_name uuid draw now s
  ]

  -- `GoogleStrategy.validate`, with what it hands to `done`.
  unfoldable pub google_validate :
      PassportProfile → (uuid : String) (draw : ℕ) (now : ℕ → ℕ) → Action OauthState (Option User)
  google_validate = validate_profile google

  -- `GitHubStrategy.validate`
  unfoldable pub github_validate :
      PassportProfile → (uuid : String) (draw : ℕ) (now : ℕ → ℕ) → Action OauthState (Option User)
  github_validate = validate_profile github
