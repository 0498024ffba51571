-- ===== src/Auth/Api/Requests/Session.antt =====
-- A session over HTTP, from the login to the logout.
use photer_api.Base.{
  ℕ, ◌+◌, ◌*◌, ◌<◌, ◌≡◌, ◌≢◌, refl, inl, String, true, false, Option, none, some, List, [], ◌∷◌,
  arith, Delegate, All, Has, change, change-none, Has-change_hit,
}
use photer_api.Base.Prisma.Calls.{find_first_hit}
use photer_api.Device.{
  Device, same_id, is_session, is_active, set_iat, mark_deleted, create, unix_to_iso_string,
}
use photer_api.User.Repository.{UserRow, same_user, has_id, has_email, map_to_domain}
use photer_api.User.Repository.Reads.{find_by_id_lem, find_by_email_lem}
use photer_api.Auth.Accounts.{Bcrypt}
use photer_api.Auth.Tokens.{JwtTokenService, refresh, generate_refresh_token, generate_access_token}
use photer_api.Auth.Validation.{
  accepts, local_validate, validate_user, validate_user_by_id, refresh_validate,
}
use photer_api.Auth.Sessions.{LoginCommand, RefreshTokenCommand, holds_valid_token}
use photer_api.Auth.Sessions.Opening.{as_oauth, opened, login_lem}
use photer_api.Auth.Sessions.Lifecycle.{
  refresh_token_lem, refresh_token_unknown, old_session-gone, logout_lem, logout_unknown,
}
use photer_api.Auth.Api.{on_login, on_refresh_token, on_logout}
use photer_api.Auth.Api.Requests.{
  Server, passes, refresh_token_auth_guard, login_request, refresh_token_request, logout_request,
}
use photer_api.Input.{ClassValidator}
use photer_api.Input.Accounts.{login_errors}
use photer_api.Http.{content_of, problem, reply, custom_exception_filter}

abbrev server : List UserRow → List Device → Server
server users devices = record { users = users; devices = devices }

module _ (jwt : JwtTokenService) (device : Delegate Device same_id)
    (user : Delegate UserRow same_user) where
  -- The cookie of a refresh token that was issued to a user of the table.
  abbrev token_at : ℕ → String → (now : ℕ) → String
  token_at user_id device_id now = generate_refresh_token jwt user_id device_id now

  guard_passes :
      (users : List UserRow) (user_id : ℕ) (device_id : String) (at now : ℕ) {r : UserRow}
      → user.find_first (has_id user_id) users ≡ some r
      → now < at + jwt.jwt_refresh_expiration_time
      → refresh_token_auth_guard jwt device user (some (token_at user_id device_id at)) now users
        ≡ passes (record { user_id = user_id; device_id = device_id; iat = at * 1000 })
  unfolding refresh_token_auth_guard generate_refresh_token refresh_validate validate_user_by_id
      unix_to_iso_string
  guard_passes users user_id device_id at now e h = ground (
    arith,
    jwt.verify-sign (refresh user_id device_id) jwt.jwt_refresh_expiration_time at now h,
    find_by_id_lem user now users user_id e,
  )

  module _ (users : List UserRow) (t : List Device) (user_id : ℕ) (device_id : String) (at : ℕ)
      (now : ℕ → ℕ) {r : UserRow} (here : user.find_first (has_id user_id) users ≡ some r)
      (in_time : now 0 < at + jwt.jwt_refresh_expiration_time) where
    abbrev command : RefreshTokenCommand
    command = record { user_id = user_id; device_id = device_id; iat = at * 1000 }

    refresh_token_request-ok :
        (d : Device)
        → Has d t
        → is_session device_id (at * 1000) d ≡ true
        → refresh_token_request jwt device user
            (some (token_at user_id device_id at))
            now
            (server users t)
          ≡ (
            record {
              status_code = 200;
              cookie = some (token_at user_id device_id (now 2));
              body = content_of (some (generate_access_token jwt user_id (now 1)));
            },
            server users (change (is_active device_id) (set_iat (now 2 * 1000)) t),
          )
    unfolding refresh_token_request on_refresh_token reply
    refresh_token_request-ok d h e = ground (
      arith,
      guard_passes users user_id device_id at (now 0) here in_time,
      refresh_token_lem jwt device command (λ i. now (i + 1)) t d h e,
    )

    refresh_token_request-refused :
        All (λ d. is_session device_id (at * 1000) d ≡ false) t
        → refresh_token_request jwt device user
            (some (token_at user_id device_id at))
            now
            (server users t)
          ≡ (
            record { status_code = 401; cookie = none; body = problem 401 "Unauthorized" },
            server users t,
          )
    unfolding refresh_token_request on_refresh_token reply custom_exception_filter
    refresh_token_request-refused a = ground (
      arith,
      guard_passes users user_id device_id at (now 0) here in_time,
      refresh_token_unknown jwt device command (λ i. now (i + 1)) t a,
    )

    logout_request-ok :
        (d : Device)
        → Has d t
        → is_session device_id (at * 1000) d ≡ true
        → logout_request jwt device user (some (token_at user_id device_id at)) now (server users t)
          ≡ (
            record { status_code = 204; cookie = none; body = content_of none },
            server users (change (is_session device_id (at * 1000)) mark_deleted t),
          )
    unfolding logout_request on_logout reply
    logout_request-ok d h e = ground (
      arith,
      guard_passes users user_id device_id at (now 0) here in_time,
      logout_lem jwt device device_id (at * 1000) t d h e,
    )

    -- A logout with a cookie whose session has ended is answered as an error of the server.
    logout_request-ended :
        All (λ d. is_session device_id (at * 1000) d ≡ false) t
        → logout_request jwt device user (some (token_at user_id device_id at)) now (server users t)
          ≡ (
            record { status_code = 500; cookie = none; body = problem 500 "Internal server error" },
            server users t,
          )
    unfolding logout_request on_logout reply
    logout_request-ended a = ground (
      arith,
      guard_passes users user_id device_id at (now 0) here in_time,
      logout_unknown jwt device device_id (at * 1000) t a,
    )

  -- The session of a user with the address and the password.
  module _ (v : ClassValidator) (texts : String → Option (List String)) (bcrypt : Bcrypt)
      (email password : String) (cookie : Option String) (ip device_name uuid : String)
      (now : ℕ → ℕ) (users : List UserRow) (t : List Device) {r : UserRow}
      (found : user.find_first (has_email email) users ≡ some r)
      (right : accepts bcrypt password r.password ≡ true)
      (passing : login_errors v (record { email = some email; password = some password }) ≡ [])
      (positive : 0 < r.id) (free : holds_valid_token jwt cookie (now 1) ≡ false)
      (fresh : All (λ d. d.id ≢ uuid) t) where
    abbrev login_command : LoginCommand
    login_command = record {
      user_id = r.id;
      ip = ip;
      device_name = device_name;
      refresh_token = cookie;
    }

    abbrev session : Device
    session =
        opened jwt device (as_oauth jwt device login_command uuid (λ i. now (i + 1)) t) uuid
          (λ i. now (i + 2)) t

    login_request-ok :
        login_request jwt device user v texts bcrypt email password cookie ip device_name uuid now
          (server users t)
        ≡ (
          record {
            status_code = 200;
            cookie = some (token_at r.id uuid (now 3));
            body = content_of (some (generate_access_token jwt r.id (now 2)));
          },
          server users (session ∷ t),
        )
    unfolding login_request on_login reply local_validate validate_user map_to_domain
    login_request-ok = ground (
      arith,
      find_by_email_lem user (now 0) users email found,
      right,
      passing,
      positive,
      login_lem jwt device login_command uuid (λ i. now (i + 1)) t free fresh,
    )

    opened-is_session : is_session uuid (now 3 * 1000) session ≡ true
    unfolding create
    opened-is_session = ground arith

    opened-is_active : is_active uuid session ≡ true
    unfolding create
    opened-is_active = ground arith

    opened-moved : (iat : ℕ) → is_session uuid iat (set_iat iat session) ≡ true
    unfolding create
    opened-moved iat = ground arith

    -- A login with the address and the password of a user, both of which pass the checks of the
    -- login's body, without a cookie that is still valid and under an identifier that no device has.
    -- It answers 200 with a cookie. Within the cookie's time a refresh with it answers 200 with
    -- another cookie; if the clock has moved on by then, the first cookie is worthless: a refresh
    -- with it answers 401 and changes nothing. A logout with the second cookie answers 204, after
    -- which a refresh with it answers 401 and a second logout 500.
    pub session_over_http :
        (later again out : ℕ → ℕ)
        → later 0 < now 3 + jwt.jwt_refresh_expiration_time
        → again 0 < now 3 + jwt.jwt_refresh_expiration_time
        → again 0 < later 2 + jwt.jwt_refresh_expiration_time
        → out 0 < later 2 + jwt.jwt_refresh_expiration_time
        → later 2 ≢ now 3
        → let (r1, s1) =
            login_request jwt device user v texts bcrypt email password cookie ip device_name uuid
              now
              (server users t) in
          let (r2, s2) = refresh_token_request jwt device user r1.cookie later s1 in
          let (r3, s3) = refresh_token_request jwt device user r1.cookie again s2 in
          let (r4, s4) = logout_request jwt device user r2.cookie out s2 in
          let (r5, s5) = refresh_token_request jwt device user r2.cookie again s4 in
          let (r6, s6) = logout_request jwt device user r2.cookie out s4 in
          (r1.status_code ≡ 200)
          × (r2.status_code ≡ 200)
          × (r3.status_code ≡ 401)
          × (s3 ≡ s2)
          × (r4.status_code ≡ 204)
          × (r5.status_code ≡ 401)
          × (s5 ≡ s4)
          × (r6.status_code ≡ 500)
    session_over_http later again out h1 h2 h3 h4 moved =
        let (in_users, _) = user.find_first-some (has_email email) users r found in
        let (x, here, _, _) =
          find_first_hit user (has_id r.id) users {r = r} in_users (ground arith) in
        let t1 : List Device = session ∷ t in
        let first : is_session uuid (now 3 * 1000) session ≡ true = opened-is_session in
        let later_iat : ℕ = later 2 * 1000 in
        let command_1 : RefreshTokenCommand = record {
          user_id = r.id;
          device_id = uuid;
          iat = now 3 * 1000;
        } in
        let t2 : List Device = change (is_active uuid) (set_iat later_iat) t1 in
        let moved_on : Has (set_iat later_iat session) t2 =
          Has-change_hit (is_active uuid) (set_iat later_iat) t1 (inl refl) opened-is_active in
        let second : is_session uuid later_iat (set_iat later_iat session) ≡ true =
          opened-moved later_iat in
        let gone =
          old_session-gone jwt device command_1 (λ i. later (i + 1)) t1
            (λ e. moved (omega (arith, e))) in
        let ended : All (λ d. is_session uuid later_iat d ≡ false)
            (change (is_session uuid later_iat) mark_deleted t2) =
          change-none (is_session uuid later_iat) mark_deleted t2 (λ d. ground arith) in
        rw
          (
            login_request-ok,
            refresh_token_request-ok users t1 r.id uuid (now 3) later here h1 session (inl refl)
                first,
            refresh_token_request-refused users t2 r.id uuid (now 3) again here h2 gone,
            logout_request-ok users t2 r.id uuid (later 2) out here h4 (set_iat later_iat session)
                moved_on second,
            refresh_token_request-refused users (change (is_session uuid later_iat) mark_deleted t2)
                r.id uuid (later 2) again here h3 ended,
            logout_request-ended users (change (is_session uuid later_iat) mark_deleted t2) r.id
                uuid (later 2) out here h4 ended,
          )
          (refl, refl, refl, refl, refl, refl, refl, refl)
