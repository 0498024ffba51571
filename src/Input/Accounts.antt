-- ===== src/Input/Accounts.antt =====
-- The DTOs of apps/gateway/src/features/auth/api/dto/input.
use photer_api.Base.{String, Bool, ◌&&◌, Option, List, [], codes, every}
use photer_api.Input.{ClassValidator, is_given, trimmed, failing, is_word_char, every_one}

pub record RegistrationDto : Type 0 where
  pub username : Option String
  pub email : Option String
  pub password : Option String

pub record LoginDto : Type 0 where
  pub email : Option String
  pub password : Option String

pub record NewPasswordBody : Type 0 where
  pub new_password : Option String
  pub recovery_code : Option String

module _ (v : ClassValidator) where
  abbrev pub is_registration_username : String → Bool
  is_registration_username s = v.is_length 6 30 s && every is_word_char (codes s)

  abbrev pub is_registration_email : String → Bool
  is_registration_email s = v.is_not_empty s && v.is_email s

  abbrev pub is_registration_password : String → Bool
  is_registration_password s = v.is_not_empty s && v.is_length 6 20 s && every_one is_word_char s

  unfoldable pub registration_errors : RegistrationDto → List String
  registration_errors d = failing "username" (is_given is_registration_username d.username) (
      failing "email" (is_given is_registration_email (trimmed d.email))
        (failing "password" (is_given is_registration_password (trimmed d.password)) []))

  abbrev pub is_login_email : String → Bool
  is_login_email s = v.is_not_empty s && v.is_email s

  abbrev pub is_login_password : String → Bool
  is_login_password s = v.is_not_empty s && v.is_length 6 20 s && every_one is_word_char s

  unfoldable pub login_errors : LoginDto → List String
  login_errors d =
      failing "email" (is_given is_login_email (trimmed d.email))
        (failing "password" (is_given is_login_password (trimmed d.password)) [])

  abbrev pub is_new_password : String → Bool
  is_new_password s = v.is_not_empty s && every_one is_word_char s

  abbrev pub is_code : String → Bool
  is_code s = v.is_not_empty s && v.is_uuid 4 s

  unfoldable pub new_password_errors : NewPasswordBody → List String
  new_password_errors d =
      failing "newPassword" (is_given is_new_password (trimmed d.new_password))
        (failing "recoveryCode" (is_given is_code (trimmed d.recovery_code)) [])

  -- `ConfirmRegistrationDto`
  unfoldable pub confirm_registration_errors : (code : Option String) → List String
  confirm_registration_errors code = failing "code" (is_given is_code (trimmed code)) []

  -- `PasswordRecoveryDto`, whose second field is not is_given here.
  unfoldable pub password_recovery_errors : (email : Option String) → List String
  password_recovery_errors email =
      failing "email" (is_given (λ s. v.is_not_empty s && v.is_email s) (trimmed email)) []
