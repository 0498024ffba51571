-- ===== src/Auth/Validation/Examples.antt =====
-- The strategies for a table of one user.
use photer_api.Base.{
  ◌≡◌, ◌⊎◌, false, none, some, List, [], ◌∷◌, arith, ok, throws, Delegate, All, Has,
}
use photer_api.Base.Prisma.Memory.{list_delegate}
use photer_api.Device.{unix_to_iso_string}
use photer_api.User.Repository.{UserRow, personal, same_user, has_id}
use photer_api.Auth.Validation.{
  unauthorized_exception, bearer_validate, optional_validate, refresh_validate,
}
use photer_api.Auth.Validation.Strategies.{strategies_agree}

abbrev users : Delegate UserRow same_user
users = list_delegate same_user

abbrev table : List UserRow
table =
    record {
      id = 7;
      username = "alice";
      password = some "$secret";
      email = "a@b.c";
      created_at = 10;
      is_deleted = false;
      updated_at = 10;
      account_type = personal;
      email_confirmation = none;
      password_recovery = none;
    }
    ∷ []

strategies_agree_example :
    ((r : UserRow) × Has r table
      × (r.id ≡ 7)
      × (bearer_validate users 7 50 table ≡ ok 7)
      × (optional_validate users 7 50 table ≡ some 7)
      × (refresh_validate users 7 "phone" 3 50 table
          ≡ ok (record { user_id = 7; device_id = "phone"; iat = unix_to_iso_string (some 3) 50 })))
    ⊎ (All (λ r. has_id 7 r ≡ false) table
        × (bearer_validate users 7 50 table ≡ throws unauthorized_exception)
        × (optional_validate users 7 50 table ≡ none)
        × (refresh_validate users 7 "phone" 3 50 table ≡ throws unauthorized_exception))
strategies_agree_example = strategies_agree users 50 table 7 3 "phone" (omega arith)
