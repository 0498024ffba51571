-- ===== src/Auth/Recovery/Examples.antt =====
-- A recovery of one of two users.
use photer_api.Base.{
  ℕ, ◌+◌, ◌≡◌, refl, inl, inr, String, false, none, some, [], ◌∷◌, arith, ok, Delegate,
  text_discrete, exact_dates,
}
use photer_api.Base.Prisma.Memory.{list_delegate}
use photer_api.Notification.{success, bad_request}
use photer_api.User.Repository.{UserRow, PasswordRecovery, personal, same_user}
use photer_api.Auth.Accounts.{Accounts}
use photer_api.Auth.Accounts.Plain.{plain_bcrypt, delivered}
use photer_api.Auth.Registration.{one}
use photer_api.Auth.Recovery.{password_recovery, new_password}
use photer_api.Auth.Recovery.Roundtrip.{recovery_roundtrip, new_password_twice}
use photer_api.Auth.Validation.{validate_user}

abbrev users : Delegate UserRow same_user
users = list_delegate same_user

abbrev row : ℕ → String → PasswordRecovery → UserRow
row id email recovery = record {
  id = id;
  username = email;
  password = some "hash";
  email = email;
  created_at = 10;
  is_deleted = false;
  updated_at = 10;
  account_type = personal;
  email_confirmation = none;
  password_recovery = some recovery;
}

abbrev recovery_with : String → PasswordRecovery
recovery_with code = record { recovery_code = code; expiration_date = 9000 }

abbrev accounts : Accounts
accounts = record {
  users = row 1 "a@b.c" (recovery_with "one") ∷ row 2 "d@e.f" (recovery_with "two") ∷ [];
  outbox = [];
}

abbrev clock : ℕ → ℕ
clock i = i + 100

recovery_roundtrip_example :
    let (a, s') =
      password_recovery users exact_dates delivered "https://photer" "d@e.f" "code" clock
        accounts in
    let (b, s'') =
      new_password users plain_bcrypt "salt"
        (record { new_password = "secret"; recovery_code = "code" })
        "uuid"
        clock
        s' in
    (b ≡ ok (success none))
    × (validate_user users plain_bcrypt "d@e.f" "secret" 500 s''.users ≡ success (some 2))
unfolding text_discrete
recovery_roundtrip_example =
    recovery_roundtrip users exact_dates plain_bcrypt delivered "https://photer" "d@e.f" "code"
      "secret" "salt" "uuid" clock clock 500 accounts refl
      ((inl refl, refl), ((inr refl, refl), tt)) (ground arith)

new_password_twice_example :
    let (a, s') =
      new_password users plain_bcrypt "salt"
        (record { new_password = "secret"; recovery_code = "two" })
        "uuid"
        clock
        accounts in
    let (b, s'') =
      new_password users plain_bcrypt "salt2"
        (record { new_password = "other"; recovery_code = "two" })
        "uuid2"
        clock
        s' in
    (a ≡ ok (success none))
    × (b ≡ ok (bad_request (one "Incorrect recovery code" "recoveryCode")))
    × (s'' ≡ s')
unfolding text_discrete
new_password_twice_example =
    new_password_twice users plain_bcrypt "two" "secret" "salt" "uuid" "other" "salt2" "uuid2" clock
      clock accounts refl refl (ground arith) (inl refl, (inr refl, tt)) refl
