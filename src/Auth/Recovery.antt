-- ===== src/Auth/Recovery.antt =====
-- Recovering a password: password-recovery.use-case.ts, password-recovery-resending.use-case.ts and
-- new-password.use-case.ts of apps/gateway/src/features/auth/application/use-cases.
pub mod Examples
pub mod Laws
pub mod Roundtrip
use photer_api.Base.{
  ℕ, ◌+◌, String, Bool, Option, none, some, List, [], ◌∷◌, Action, Result, ok, throws, message,
  pure, catching, ◌>>=◌, ◌>>◌, Delegate, DateFns,
}
use photer_api.Notification.{Notification, success, bad_request, not_found}
use photer_api.User.{User, request_password_recovery, update_password}
use photer_api.User.Repository.{
  UserRow, same_user, or_else, find_by_email, find_user_by_recovery_code,
  update_or_create_password_recovery,
}
use photer_api.Auth.Accounts.{
  Accounts, Email, password_recovery_page, Transporter, Bcrypt, on_users, post_email,
}
use photer_api.Auth.Registration.{one}

pub record NewPasswordDto : Type 0 where
  pub new_password : String
  pub recovery_code : String

abbrev pub recovery_email : String → (code base_url : String) → Email
recovery_email recipient code base_url = record {
  recipient = recipient;
  template = password_recovery_page code base_url;
  subject = "Password Recovery";
}

module _ (user : Delegate UserRow same_user) where
  module _ (dates : DateFns) (transporter : Transporter) (base_url : String) where
    -- The two use cases differ in the text for an address that nobody has.
    unfoldable pub recover :
        (unknown email : String) (uuid : String) (now : ℕ → ℕ)
        → Action Accounts (Notification (Unit {0}))
    recover unknown email uuid now s = elim (find_by_email user email (now 0) s.users) [
      | none ↦ pure (not_found unknown) s
      | some u ↦
          (do
            let v = request_password_recovery dates uuid (λ i. now (i + 1)) u
            on_users (update_or_create_password_recovery user v)
            post_email transporter (recovery_email email (or_else v.recovery_code "null") base_url)
            pure (success none))
            s
    ]

    unfoldable pub password_recovery :
        String → (uuid : String) (now : ℕ → ℕ) → Action Accounts (Notification (Unit {0}))
    unfolding recover
    password_recovery = recover "User not found"

    unfoldable pub password_recovery_resending :
        String → (uuid : String) (now : ℕ → ℕ) → Action Accounts (Notification (Unit {0}))
    unfolding recover
    password_recovery_resending = recover "User with this email does not exist"

  -- The body of the `try`.
  abbrev set_password :
      User → String → (uuid : String) (now : ℕ → ℕ) → Action Accounts (Notification (Unit {0}))
  set_password u hash uuid now s =
      let (r, u') = update_password hash uuid now u in
      elim r [
        | throws e ↦ (throws e, s)
        | ok _ ↦ (do on_users (update_or_create_password_recovery user u'); pure (success none)) s
      ]

  unfoldable pub new_password :
      (bcrypt : Bcrypt) (salt : String)
      → NewPasswordDto
      → (uuid : String) (now : ℕ → ℕ) → Action Accounts (Notification (Unit {0}))
  new_password bcrypt salt dto uuid now s =
      elim (find_user_by_recovery_code user dto.recovery_code (now 0) s.users) [
        | none ↦ pure (bad_request (one "Incorrect recovery code" "recoveryCode")) s
        | some u ↦
            catching (set_password u (bcrypt.hash dto.new_password salt) uuid (λ i. now (i + 1)))
              (λ e. pure (bad_request (one (message e) "recoveryCode"))) s
      ]
