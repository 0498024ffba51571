-- ===== src/Auth/Sessions/Examples.antt =====
-- The session use cases at a small table of devices.
use photer_api.Base.{
  ℕ, ◌+◌, ◌≡◌, refl, inl, true, false, none, List, [], ◌∷◌, arith, Delegate, text_discrete,
  ne_of_test, ok,
}
use photer_api.Base.Prisma.Memory.{list_delegate}
use photer_api.Notification.{success, unauthorized}
use photer_api.Device.{Device, same_id}
use photer_api.Auth.Tokens.Plain.{plain_tokens}
use photer_api.Auth.Sessions.{LoginCommand, RefreshTokenCommand, login, refresh_token, logout}
use photer_api.Auth.Sessions.Ended.{IsEnded, next, stop, by_login, by_logout, session_never_returns}
use photer_api.Auth.Sessions.Lifecycle.{refresh_token_twice, logout_ends_session}

abbrev devices : Delegate Device same_id
devices = list_delegate same_id

abbrev phone : Device
phone = record {
  id = "phone";
  user_id = 7;
  device_name = "Pixel";
  ip = "10.0.0.1";
  iat = 3000;
  exp = 9000;
  is_deleted = false;
}

abbrev table : List Device
table = phone ∷ []

abbrev clock : ℕ → ℕ
clock i = i + 5

abbrev login_command : LoginCommand
login_command = record { user_id = 7; ip = "10.0.0.2"; device_name = "Mac"; refresh_token = none }

abbrev refresh_command : RefreshTokenCommand
refresh_command = record { user_id = 7; device_id = "phone"; iat = 3000 }

refresh_token_twice_example :
    let t' = (refresh_token plain_tokens devices refresh_command clock table).1 in
    refresh_token plain_tokens devices refresh_command clock t'
    ≡ (ok (unauthorized "Invalid refresh token"), t')
unfolding text_discrete
refresh_token_twice_example =
    refresh_token_twice plain_tokens devices refresh_command clock table phone clock (inl refl) refl
      (omega arith)

logout_ends_session_example :
    let (r, t') = logout plain_tokens devices "phone" 3000 table in
    (r ≡ ok (success none))
    × (refresh_token plain_tokens devices
          (record { user_id = 7; device_id = "phone"; iat = 3000 })
          clock
          t'
        ≡ (ok (unauthorized "Invalid refresh token"), t'))
unfolding text_discrete
logout_ends_session_example =
    logout_ends_session plain_tokens devices "phone" 3000 table phone 7 clock (inl refl) refl

abbrev left : List Device
left = record phone { is_deleted = true } ∷ []

abbrev laptop_in : List Device
laptop_in = (login plain_tokens devices login_command "laptop" clock left).1

session_never_returns_example :
    let u = (logout plain_tokens devices "laptop" 7000 laptop_in).1 in
    IsEnded plain_tokens devices "phone" u
    × (refresh_token plain_tokens devices refresh_command clock u
        ≡ (ok (unauthorized "Invalid refresh token"), u))
unfolding text_discrete
session_never_returns_example =
    session_never_returns plain_tokens devices "phone" {t = left} refresh_command clock
      (next (by_login login_command "laptop" clock (ne_of_test "phone" "laptop" refl, tt))
        (next (by_logout "laptop" 7000) stop))
      ((record phone { is_deleted = true }, inl refl, refl), (refl, tt)) refl
