-- ===== src/Auth/Registration/Examples.antt =====
-- A registration beside one user.
use photer_api.Base.{
  ℕ, ◌+◌, ◌≡◌, ◌⊎◌, refl, true, false, none, some, [], ◌∷◌, arith, ok, Delegate, Sequence, All, Has,
  text_discrete, exact_dates,
}
use photer_api.Base.Prisma.Memory.{list_delegate, list_sequence}
use photer_api.Notification.{success, bad_request}
use photer_api.User.Repository.{UserRow, personal, same_user, has_username, has_email}
use photer_api.Auth.Accounts.{Accounts}
use photer_api.Auth.Accounts.Plain.{plain_bcrypt, delivered}
use photer_api.Auth.Registration.{
  RegistrationUserCommand, one, registration_email, registration, confirm_registration,
}
use photer_api.Auth.Registration.Laws.{registration_taken, registration_opens_account}
use photer_api.Auth.Validation.{validate_user}

abbrev users : Delegate UserRow same_user
users = list_delegate same_user

abbrev keys : Sequence UserRow (λ r. r.id)
keys = list_sequence (λ r. r.id)

abbrev accounts : Accounts
accounts = record {
  users =
      record {
        id = 1;
        username = "alice";
        password = some "hash";
        email = "a@b.c";
        created_at = 10;
        is_deleted = false;
        updated_at = 10;
        account_type = personal;
        email_confirmation = none;
        password_recovery = none;
      }
      ∷ [];
  outbox = [];
}

abbrev command : RegistrationUserCommand
command = record { username = "bobby"; email = "d@e.f"; password = "secret" }

abbrev clock : ℕ → ℕ
clock i = i + 100

registration_taken_example :
    let run =
      registration users keys exact_dates plain_bcrypt delivered "https://photer" command "uuid"
        clock accounts in
    ((r : UserRow) × Has r accounts.users
      × (has_username "bobby" r ≡ true)
      × (run
          ≡ (ok (bad_request (one "User with such credentials already exists" "login")), accounts)))
    ⊎ ((r : UserRow) × Has r accounts.users
        × (has_email "d@e.f" r ≡ true)
        × (run ≡ (
          ok (bad_request (one "User with such credentials already exists" "email")),
          accounts,
        )))
    ⊎ (All (λ r. has_username "bobby" r ≡ false) accounts.users
        × All (λ r. has_email "d@e.f" r ≡ false) accounts.users)
registration_taken_example =
    registration_taken users keys exact_dates plain_bcrypt delivered "https://photer" command "uuid"
      clock accounts

registration_opens_account_example :
    let (a, s') =
      registration users keys exact_dates plain_bcrypt delivered "https://photer" command "uuid"
        clock accounts in
    (a ≡ ok (success none))
    × (validate_user users plain_bcrypt "d@e.f" "secret" 500 s'.users ≡ success (some 2))
    × (s'.outbox ≡ registration_email "d@e.f" "uuid" "https://photer" ∷ [])
    × (confirm_registration users keys exact_dates plain_bcrypt delivered "https://photer" "uuid"
          clock s'
        ≡ (ok (bad_request (one "Email already confirmed" "code")), s'))
unfolding text_discrete
registration_opens_account_example =
    registration_opens_account users keys exact_dates plain_bcrypt delivered "https://photer"
      command "uuid" clock accounts (refl, tt) (refl, tt) refl 500 clock (refl, tt) (ground arith)
