-- ===== src/Auth/Sessions.antt =====
-- The use cases that open, renew and close a session, in
-- apps/gateway/src/features/auth/application/use-cases. The state is the table of devices;
-- `now` numbers the readings of the clock in one run, and `uuid` is what `randomUUID` returns.
pub mod Opening
pub mod Lifecycle
pub mod Ended
mod Examples
use photer_api.Base.{
  ℕ, ◌+◌, String, Bool, true, false, not, Option, none, some, List, Action, pure, ◌>>=◌, ◌>>◌,
  Delegate, truthy, is_some, if◌then◌else◌,
}
use photer_api.Notification.{Notification, success, unauthorized}
use photer_api.Device.{
  Device, same_id, create, create_device, find_one_by_device_id_and_iat, update_iat,
  delete_one_by_device_id_and_iat, unix_to_iso_string,
}
use photer_api.Auth.Tokens.{
  JwtTokenService, TokenPayload, generate_access_token, generate_refresh_token,
}

pub record TokenPair : Type 0 where
  pub access_token : String
  pub refresh_token : String

pub record LoginCommand : Type 0 where
  pub user_id : ℕ
  pub ip : String
  pub device_name : String
  pub refresh_token : Option String

pub record OauthCommand : Type 0 where
  pub user_id : ℕ
  pub ip : String
  pub device_name : String

pub record RefreshTokenCommand : Type 0 where
  pub user_id : ℕ
  pub device_id : String
  pub iat : ℕ

-- `if (command.refreshToken)` and a `verify` that does not throw.
abbrev pub holds_valid_token : JwtTokenService → Option String → ℕ → Bool
holds_valid_token jwt none now = false
holds_valid_token jwt (some token) now =
    if truthy token then is_some (jwt.verify token now) else false

module _ (jwt : JwtTokenService) (device : Delegate Device same_id) where
  -- The device of a decoded refresh token, saved; the result of the save is not read.
  abbrev save_session :
      ℕ
      → String
      → String
      → String
      → TokenPair
      → Option TokenPayload
      → Action (List Device) (Notification TokenPair)
  save_session user_id ip device_name uuid tokens none = pure (unauthorized "Invalid refresh token")
  save_session user_id ip device_name uuid tokens (some decoded) = do
    create_device device (create uuid user_id device_name ip decoded.iat decoded.exp)
    pure (success (some tokens))

  -- `OAuthUseCase.execute`, and the part of `LoginUseCase.execute` behind the check.
  unfoldable pub oauth :
      OauthCommand → (uuid : String) (now : ℕ → ℕ) → Action (List Device) (Notification TokenPair)
  unfolding generate_access_token generate_refresh_token
  oauth command uuid now =
      let access_token = generate_access_token jwt command.user_id (now 0) in
      let refresh_token = generate_refresh_token jwt command.user_id uuid (now 1) in
      save_session command.user_id command.ip command.device_name uuid
        (record { access_token = access_token; refresh_token = refresh_token })
        (jwt.decode refresh_token)

  unfoldable pub login :
      LoginCommand → (uuid : String) (now : ℕ → ℕ) → Action (List Device) (Notification TokenPair)
  unfolding oauth
  login command uuid now =
      if holds_valid_token jwt command.refresh_token (now 0)
      then pure (unauthorized "Refresh token is still valid. Logout before logging in again")
      else oauth
          (record { user_id = command.user_id; ip = command.ip; device_name = command.device_name })
          uuid (λ i. now (i + 1))

  unfoldable pub logout : String → ℕ → Action (List Device) (Notification (Unit {0}))
  logout device_id iat = do
    is_deleted ← delete_one_by_device_id_and_iat device device_id iat
    if not is_deleted then pure (unauthorized "Invalid or expired token") else pure (success none)

  abbrev rotate :
      String → TokenPair → Option TokenPayload → ℕ → Action (List Device) (Notification TokenPair)
  unfolding unix_to_iso_string
  rotate device_id tokens none now = pure (unauthorized "Invalid refresh token")
  rotate device_id tokens (some decoded) now = do
    update_iat device device_id (unix_to_iso_string (some decoded.iat) now)
    pure (success (some tokens))

  unfoldable pub refresh_token :
      RefreshTokenCommand → (now : ℕ → ℕ) → Action (List Device) (Notification TokenPair)
  unfolding generate_access_token generate_refresh_token rotate
  refresh_token command now t =
      elim (find_one_by_device_id_and_iat device command.device_id command.iat t) [
        | none ↦ pure (unauthorized "Invalid refresh token") t
        | some d ↦
            let access_token = generate_access_token jwt command.user_id (now 0) in
            let refresh_token =
              generate_refresh_token jwt command.user_id command.device_id (now 1) in
            rotate command.device_id
              (record { access_token = access_token; refresh_token = refresh_token })
              (jwt.decode refresh_token) (now 2) t
      ]
