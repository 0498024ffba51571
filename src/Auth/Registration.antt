-- ===== src/Auth/Registration.antt =====
-- Opening an account and confirming its address: registration.use-case.ts,
-- confirm-registration.use-case.ts and registration-email-resending.use-case.ts of
-- apps/gateway/src/features/auth/application/use-cases.
pub mod Laws
pub mod Examples
use Prim.Native.String.{◌++◌ as ◌<>◌}
use photer_api.Base.{
  ℕ, String, none, some, List, [], ◌∷◌, ltb, Action, Result, ok, throws, error, message, pure,
  throw, catching, ◌>>◌, Delegate, Sequence, DateFns, if◌then◌else◌,
}
use photer_api.Notification.{Notification, Extension, success, bad_request}
use photer_api.User.{User, confirm_email, update_confirmation_code}
use photer_api.User
use photer_api.User.Repository.{
  UserRow, same_user, find_by_username, find_by_email, find_by_confirmation_code,
  update_confirmation,
}
use photer_api.User.Repository
use photer_api.Auth.Accounts.{
  Accounts, Email, registration_page, Transporter, Bcrypt, on_users, send_email, post_email,
}

pub record RegistrationUserCommand : Type 0 where
  pub username : String
  pub email : String
  pub password : String

-- `[{ message, field }]`
abbrev pub one : (text field : String) → List Extension
one text field = record { field = field; text = text } ∷ []

abbrev pub registration_email : String → (code base_url : String) → Email
registration_email recipient code base_url = record {
  recipient = recipient;
  template = registration_page code base_url;
  subject = "Registration Confirmation";
}

-- The new entity is confirmed at once.
abbrev pub new_user :
    DateFns
    → Bcrypt
    → RegistrationUserCommand
    → (uuid : String) (now : ℕ → ℕ) → Result (Unit {0}) × User
new_user dates bcrypt command uuid now = confirm_email (now 3) (
    User.create dates command.username (some (bcrypt.hash command.password "10")) command.email uuid
      now)

module _ (user : Delegate UserRow same_user) (keys : Sequence UserRow (λ r. r.id)) (dates : DateFns)
    (bcrypt : Bcrypt) (transporter : Transporter) (base_url : String) where
  abbrev save_new :
      RegistrationUserCommand
      → (uuid : String) (now : ℕ → ℕ) → Action Accounts (Notification (Unit {0}))
  save_new command uuid now s =
      let (r, u) = new_user dates bcrypt command uuid now in
      elim r [
        | throws e ↦ (throws e, s)
        | ok _ ↦
            (do
              on_users (Repository.create user keys u)
              send_email transporter (registration_email u.email u.confirmation_code base_url)
              pure (success none))
              s
      ]

  unfoldable pub registration :
      RegistrationUserCommand
      → (uuid : String) (now : ℕ → ℕ) → Action Accounts (Notification (Unit {0}))
  registration command uuid now s = elim (find_by_username user command.username (now 4) s.users) [
    | some by_login ↦ pure (bad_request (one "User with such credentials already exists" "login")) s
    | none ↦ elim (find_by_email user command.email (now 5) s.users) [
      | some by_email ↦
          pure (bad_request (one "User with such credentials already exists" "email")) s
      | none ↦ save_new command uuid now s
    ]
  ]

  -- The body of the `try`.
  abbrev confirm_and_save : User → (now : ℕ) → Action Accounts (Notification (Unit {0}))
  confirm_and_save u now s =
      let (r, u') = confirm_email now u in
      elim r [
        | throws e ↦ (throws e, s)
        | ok _ ↦ (do on_users (update_confirmation user u'); pure (success none)) s
      ]

  unfoldable pub confirm_registration :
      String → (now : ℕ → ℕ) → Action Accounts (Notification (Unit {0}))
  confirm_registration code now s = elim (find_by_confirmation_code user code (now 0) s.users) [
    | none ↦ pure (bad_request (one "Invalid confirmation code" "code")) s
    | some u ↦
        if ltb u.confirmation_expiration (now 1)
        then pure (bad_request (one "Confirmation code has expired" "code")) s
        else catching (confirm_and_save u (now 2))
            (λ e. pure (bad_request (one (message e) "code"))) s
  ]

  -- The body of the `try`, with `resendConfirmation`; it hands on the entity.
  abbrev renew_code : User → (uuid : String) (now : ℕ → ℕ) → Action Accounts User
  renew_code u uuid now s =
      if u.is_confirmed
      then throw (error "Email already confirmed") s
      else (do
        let v = update_confirmation_code uuid (dates.add (now 1) 1 30) (now 2) u
        on_users (update_confirmation user v)
        pure v)
          s

  abbrev resend : String → Result User → Action Accounts (Notification (Unit {0}))
  resend email (throws e) = pure (bad_request (one (message e) "email"))
  resend email (ok v) = do
    post_email transporter (registration_email email v.confirmation_code base_url)
    pure (success none)

  unfoldable pub registration_email_resending :
      String → (uuid : String) (now : ℕ → ℕ) → Action Accounts (Notification (Unit {0}))
  registration_email_resending email uuid now s = elim (find_by_email user email (now 0) s.users) [
    | none ↦ pure (bad_request (one ("User with email " <> email <> " does not exist") "email")) s
    | some u ↦ let (r, s') = renew_code u uuid now s in resend email r s'
  ]
