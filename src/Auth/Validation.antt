-- ===== src/Auth/Validation.antt =====
-- Who a request is from: `validateUser` and `validateUserById` of
-- apps/gateway/src/features/auth/application/services/auth-service.ts, and the strategies of
-- apps/gateway/src/core/strategies that call them. Passport has checked a token before it hands its
-- payload to a strategy.
pub mod Strategies
pub mod Examples
use photer_api.Base.{
  ℕ, String, Bool, true, false, ◌&&◌, Option, none, some, List, ◌==◌, truthy, Result, ok, throws,
  Exception, error, Delegate, if◌then◌else◌,
}
use photer_api.Notification.{
  Notification, ResultStatus, not_found_status, success, not_found, unauthorized,
}
use photer_api.User.{User}
use photer_api.User.Repository.{UserRow, same_user, find_by_email, find_by_id}
use photer_api.Auth.Accounts.{Bcrypt}
use photer_api.Device.{unix_to_iso_string}

-- `!user.getPassword() || !(await compare(password, user.getPassword()))`, negated.
abbrev pub accepts : Bcrypt → String → Option String → Bool
accepts bcrypt password none = false
accepts bcrypt password (some hash) = truthy hash && bcrypt.compare password hash

abbrev checked : Bcrypt → String → Option User → Notification ℕ
checked bcrypt password none = unauthorized "Wrong email or password"
checked bcrypt password (some u) =
    if accepts bcrypt password u.password
    then success (some u.id)
    else unauthorized "Wrong email or password"

abbrev known : Option User → Notification (Unit {0})
known none = not_found "Wrong user id"
known (some u) = success none

-- `new UnauthorizedException()`
abbrev pub unauthorized_exception : Exception
unauthorized_exception = error "Unauthorized"

abbrev is_not_found : ResultStatus → Bool
is_not_found not_found_status = true
is_not_found _ = false

pub record RequestDevice : Type 0 where
  pub user_id : ℕ
  pub device_id : String
  pub iat : ℕ

-- The number 0 is falsy.
abbrev logged_in : Option ℕ → Result ℕ
logged_in none = throws unauthorized_exception
logged_in (some id) = if id == 0 then throws unauthorized_exception else ok id

module _ (user : Delegate UserRow same_user) where
  unfoldable pub validate_user :
      Bcrypt → (email password : String) (now : ℕ) → List UserRow → Notification ℕ
  validate_user bcrypt email password now t =
      checked bcrypt password (find_by_email user email now t)

  unfoldable pub validate_user_by_id : ℕ → (now : ℕ) → List UserRow → Notification (Unit {0})
  validate_user_by_id id now t = known (find_by_id user id now t)

  -- `LocalStrategy.validate`
  unfoldable pub local_validate :
      Bcrypt → (email password : String) (now : ℕ) → List UserRow → Result ℕ
  unfolding validate_user
  local_validate bcrypt email password now t =
      logged_in (validate_user bcrypt email password now t).datum

  -- `BearerStrategy.validate`
  unfoldable pub bearer_validate : ℕ → (now : ℕ) → List UserRow → Result ℕ
  unfolding validate_user_by_id
  bearer_validate user_id now t =
      if is_not_found (validate_user_by_id user_id now t).status
      then throws unauthorized_exception
      else ok user_id

  -- `JwtStrategy.validate` of optional-jwt.strategies.ts: `null` for a user that is not there, and
  -- for the number 0.
  unfoldable pub optional_validate : ℕ → (now : ℕ) → List UserRow → Option ℕ
  unfolding validate_user_by_id
  optional_validate user_id now t =
      if is_not_found (validate_user_by_id user_id now t).status
      then none
      else if user_id == 0
      then none
      else some user_id

  -- `RefreshTokenStrategy.validate`: what it sets as the device of the request.
  unfoldable pub refresh_validate : ℕ → String → (iat now : ℕ) → List UserRow → Result RequestDevice
  unfolding validate_user_by_id
  refresh_validate user_id device_id iat now t =
      if is_not_found (validate_user_by_id user_id now t).status
      then throws unauthorized_exception
      else ok (record {
        user_id = user_id;
        device_id = device_id;
        iat = unix_to_iso_string (some iat) now;
      })
