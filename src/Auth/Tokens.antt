-- ===== src/Auth/Tokens.antt =====
-- apps/gateway/src/core/services/jwt/jwt-token.service.ts. Nest's `JwtService` signs, verifies and
-- decodes: it is a parameter, which knows the claims of what it signed. Times are in seconds.
pub mod Plain
use photer_api.Base.{ℕ, ◌+◌, ◌<◌, ◌≡◌, String, Option, some}

-- `AccessTokenPayload` and `RefreshTokenPayload`, less the times.
pub data Claims : Type 0 where
  access : (user_id : ℕ) → Claims
  refresh : (user_id : ℕ) → (device_id : String) → Claims

pub record TokenPayload : Type 0 where
  pub claims : Claims
  pub iat : ℕ
  pub exp : ℕ

pub record NestJwtService : Type 0 where
  pub sign : Claims → (expires_in now : ℕ) → String
  -- `none` is a throw.
  pub verify : String → (now : ℕ) → Option TokenPayload
  -- `none` is `null`.
  pub decode : String → Option TokenPayload
  pub decode-sign :
      (c : Claims) (e n : ℕ)
      → decode (sign c e n) ≡ some (record { claims = c; iat = n; exp = n + e })
  pub verify-sign :
      (c : Claims) (e n now : ℕ)
      → now < n + e
      → verify (sign c e n) now ≡ some (record { claims = c; iat = n; exp = n + e })

pub record JwtTokenService : Type 0 where
  pub nest_jwt_service : NestJwtService
  pub open nest_jwt_service use *
  pub jwt_access_expiration_time : ℕ
  pub jwt_refresh_expiration_time : ℕ

unfoldable pub generate_access_token : JwtTokenService → ℕ → (now : ℕ) → String
generate_access_token s user_id now = s.sign (access user_id) s.jwt_access_expiration_time now

unfoldable pub generate_refresh_token : JwtTokenService → ℕ → String → (now : ℕ) → String
generate_refresh_token s user_id device_id now =
    s.sign (refresh user_id device_id) s.jwt_refresh_expiration_time now
