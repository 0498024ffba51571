-- ===== src/Auth/Api/Requests.antt =====
-- The requests of a session behind their guards: `LocalAuthGuard` and `RefreshTokenAuthGuard` of
-- apps/gateway/src/core/guards, with the parameters that core/decorators/param-decorators take from
-- the request, with the check of the
-- body by apps/gateway/src/setup/pipes.setup.ts, in front of the endpoints of apps/gateway/src/features/auth/api/auth.controller.ts.
pub mod Session
use photer_api.Base.{
  ℕ, ◌+◌, String, Bool, Option, none, some, List, [], ◌∷◌, map, Action, Result, ok, throws, error,
  Delegate, ◌==◌, if◌then◌else◌,
}
use photer_api.Device.{Device, same_id}
use photer_api.User.Repository.{UserRow, same_user}
use photer_api.Notification.{Notification}
use photer_api.Auth.Accounts.{Bcrypt}
use photer_api.Auth.Tokens.{JwtTokenService, TokenPayload, Claims, access, refresh}
use photer_api.Auth.Validation.{RequestDevice, local_validate, refresh_validate}
use photer_api.Auth.Sessions.{TokenPair, login, refresh_token, logout}
use photer_api.Auth.Api.{on_login, on_refresh_token, on_logout}
use photer_api.Input.{ClassValidator}
use photer_api.Input.Accounts.{login_errors}
use photer_api.Input.Pipe.{ValidationError, validation_reply}
use photer_api.Http.{
  Thrown, http_exception, unhandled, Outcome, raises, Reply, reply, unauthorized_error,
}

pub record Server : Type 0 where
  pub users : List UserRow
  pub devices : List Device

abbrev pub on_devices : {A : Type 0} → Action (List Device) A → Action Server A
on_devices m s = let (r, t) = m s.devices in (r, record s { devices = t })

-- What a guard does with a request: it sets what the endpoint gets, or refuses.
pub data Guarded (A : Type 0) : Type 0 where
  passes : A → Guarded A
  refuses : Thrown → Guarded A

abbrev guarded_by : {A : Type 0} → Result A → Guarded A
guarded_by (ok a) = passes a
guarded_by (throws e) = refuses (unauthorized_error none)

-- An endpoint behind a guard: a command on the devices and what its result is answered with.
abbrev pub behind :
    {A N B : Type 0}
    → Guarded A
    → (A → Action (List Device) N)
    → (Result N → Outcome B)
    → Server
    → Reply B × Server
behind (refuses e) run answer s = (reply (raises e), s)
behind (passes a) run answer s = let (r, s') = on_devices (run a) s in (reply (answer r), s')

-- A parameter with a DTO is checked by the `ValidationPipe`, which comes after the guard.
abbrev behind_checked :
    {A N B : Type 0}
    → List ValidationError
    → Guarded A
    → (A → Action (List Device) N)
    → (Result N → Outcome B)
    → Server
    → Reply B × Server
behind_checked [] guarded run answer s = behind guarded run answer s
behind_checked (e ∷ errors) (refuses x) run answer s = (reply (raises x), s)
behind_checked (e ∷ errors) (passes a) run answer s = (validation_reply (e ∷ errors), s)

-- What class-validator reports of the properties that fail; `texts` are those of the failed checks.
abbrev violations : (texts : String → Option (List String)) → List String → List ValidationError
violations texts properties =
    map (λ property. record { property = property; constraints = texts property }) properties

-- The payload of a token that passport has verified. A token of another kind names no device, which
-- `CurrentDeviceId` refuses.
abbrev device_of :
    Delegate UserRow same_user
    → (now : ℕ) → List UserRow
    → Claims
    → (iat : ℕ) → Guarded RequestDevice
device_of user now users (access user_id) iat =
    refuses (unhandled (error "Device id not provided in request"))
device_of user now users (refresh user_id device_id) iat =
    guarded_by (refresh_validate user user_id device_id iat now users)

abbrev verified :
    Delegate UserRow same_user
    → (now : ℕ) → List UserRow
    → Option TokenPayload
    → Guarded RequestDevice
verified user now users none = refuses (http_exception 401 "Unauthorized")
verified user now users (some p) = device_of user now users p.claims p.iat

module _ (jwt : JwtTokenService) (device : Delegate Device same_id)
    (user : Delegate UserRow same_user) where
  -- `RefreshTokenAuthGuard`; `none` is a cookie that is absent or empty.
  unfoldable pub refresh_token_auth_guard :
      Option String → (now : ℕ) → List UserRow → Guarded RequestDevice
  refresh_token_auth_guard none now users = refuses (http_exception 401 "Unauthorized")
  refresh_token_auth_guard (some token) now users = verified user now users (jwt.verify token now)

  -- `POST auth/login`. The guard reads the fields of the body as they were sent.
  unfoldable pub login_request :
      ClassValidator
      → (texts : String → Option (List String)) → Bcrypt
      → (email password : String) (cookie : Option String) (ip device_name uuid : String)
        (now : ℕ → ℕ)
      → Server
      → Reply String × Server
  login_request v texts bcrypt email password cookie ip device_name uuid now s =
      behind_checked
        (violations texts
          (login_errors v (record { email = some email; password = some password })))
        (guarded_by (local_validate user bcrypt email password (now 0) s.users))
        (λ user_id.
          login jwt device
            (record {
              user_id = user_id;
              ip = ip;
              device_name = device_name;
              refresh_token = cookie;
            })
            uuid (λ i. now (i + 1)))
        on_login s

  -- `POST auth/refresh-token`
  unfoldable pub refresh_token_request :
      Option String → (now : ℕ → ℕ) → Server → Reply String × Server
  unfolding refresh_token_auth_guard
  refresh_token_request cookie now s =
      behind (refresh_token_auth_guard cookie (now 0) s.users)
        (λ d.
          refresh_token jwt device
            (record { user_id = d.user_id; device_id = d.device_id; iat = d.iat })
            (λ i. now (i + 1)))
        on_refresh_token s

  -- `POST auth/logout`
  unfoldable pub logout_request : Option String → (now : ℕ → ℕ) → Server → Reply (Unit {0}) × Server
  unfolding refresh_token_auth_guard
  logout_request cookie now s =
      behind (refresh_token_auth_guard cookie (now 0) s.users)
        (λ d. logout jwt device d.device_id d.iat) on_logout s
