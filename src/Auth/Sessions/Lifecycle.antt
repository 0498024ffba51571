-- ===== src/Auth/Sessions/Lifecycle.antt =====
-- A session after the login: what a refresh and a logout leave in the table of devices.
use photer_api.Base.{
  ℕ, ◌+◌, ◌*◌, ◌≡◌, refl, ◌≢◌, ap, String, true, false, none, some, List, arith, Result, ok, throws,
  rejection, Delegate, All, Has, change, change-none, Has-change_hit, All-change, All-true,
}
use photer_api.Base.Prisma.Calls.{find_first_hit, find_first_miss, run_update_hit, run_update_miss}
use photer_api.Notification.{Notification, success, unauthorized}
use photer_api.Device.{
  Device, same_id, is_session, is_active, set_iat, mark_deleted, find_one_by_device_id_and_iat,
  update_iat, delete_one_by_device_id_and_iat,
}
use photer_api.Auth.Tokens.{
  JwtTokenService, TokenPayload, refresh, generate_access_token, generate_refresh_token,
}
use photer_api.Auth.Sessions.{TokenPair, RefreshTokenCommand, logout, refresh_token}
use photer_api.Auth.Sessions.Opening.{find_one_hit, find_one_miss}

module _ (jwt : JwtTokenService) (device : Delegate Device same_id) where
  module _ (command : RefreshTokenCommand) (now : ℕ → ℕ) (t : List Device) where
    -- A refresh whose token's device and issue time have no session is refused, and changes nothing.
    pub refresh_token_unknown :
        All (λ d. is_session command.device_id command.iat d ≡ false) t
        → refresh_token jwt device command now t ≡ (ok (unauthorized "Invalid refresh token"), t)
    unfolding refresh_token
    refresh_token_unknown a =
        ground (arith, find_one_miss jwt device command.device_id command.iat t a)

  module _ (command : RefreshTokenCommand) (now : ℕ → ℕ) (t : List Device) where
    abbrev pub rotated : TokenPair
    rotated = record {
      access_token = generate_access_token jwt command.user_id (now 0);
      refresh_token = generate_refresh_token jwt command.user_id command.device_id (now 1);
    }

    pub refresh_token_lem :
        (d : Device)
        → Has d t
        → is_session command.device_id command.iat d ≡ true
        → refresh_token jwt device command now t ≡ (
          ok (success (some rotated)),
          change (is_active command.device_id) (set_iat (now 1 * 1000)) t,
        )
    unfolding refresh_token update_iat
    refresh_token_lem d h e =
        let (x, q, k, b) = find_one_hit jwt device command.device_id command.iat t d h e in
        let (y, q', k', b') =
          find_first_hit device (is_active command.device_id) t h (ground arith) in
        ground (
          arith,
          q,
          jwt.decode-sign (refresh command.user_id command.device_id)
              jwt.jwt_refresh_expiration_time (now 1),
          run_update_hit device (is_active command.device_id) (set_iat (now 1 * 1000)) t q',
        )

    pub old_session-gone :
        now 1 * 1000 ≢ command.iat
        → All
            (λ d. is_session command.device_id command.iat d ≡ false)
            (change (is_active command.device_id) (set_iat (now 1 * 1000)) t)
    old_session-gone ne =
        All-change (λ d. Unit {0}) (λ d. is_session command.device_id command.iat d ≡ false)
          (is_active command.device_id) (set_iat (now 1 * 1000)) t (λ d u e. ground arith)
          (λ d u e. ground arith) (All-true t)

    -- A refresh for a session that the table holds succeeds; the new refresh token names the same
    -- device, and the table then holds a session for that device and the new token's issue time.
    refresh_token_renews :
        (d : Device)
        → Has d t
        → is_session command.device_id command.iat d ≡ true
        → let (r, t') = refresh_token jwt device command now t in
          (tokens : TokenPair) × (p : TokenPayload) × (x : Device) × (r
            ≡ ok (success (some tokens)))
          × (jwt.decode tokens.refresh_token ≡ some p)
          × (p.claims ≡ refresh command.user_id command.device_id)
          × (find_one_by_device_id_and_iat device command.device_id (p.iat * 1000) t' ≡ some x)
    unfolding generate_refresh_token
    refresh_token_renews d h e =
        let iat : ℕ = now 1 * 1000 in
        let run = refresh_token_lem d h e in
        let t' : List Device = change (is_active command.device_id) (set_iat iat) t in
        let moved = Has-change_hit (is_active command.device_id) (set_iat iat) t h (ground arith) in
        let (x, q, k, b) =
          find_one_hit jwt device command.device_id iat t' (set_iat iat d) moved (ground arith) in
        (
          rotated,
          record {
            claims = refresh command.user_id command.device_id;
            iat = now 1;
            exp = now 1 + jwt.jwt_refresh_expiration_time;
          },
          x,
          ap (λ (p : Result (Notification TokenPair) × List Device). p.0) run,
          jwt.decode-sign (refresh command.user_id command.device_id)
              jwt.jwt_refresh_expiration_time (now 1),
          refl,
          rw run q,
        )

    -- A refresh token is good for one refresh: when the new token is issued in another second than
    -- the old one, a second refresh with the old token is refused and changes nothing.
    pub refresh_token_twice :
        (d : Device) (later : ℕ → ℕ)
        → Has d t
        → is_session command.device_id command.iat d ≡ true
        → now 1 * 1000 ≢ command.iat
        → let t' = (refresh_token jwt device command now t).1 in
          refresh_token jwt device command later t'
          ≡ (ok (unauthorized "Invalid refresh token"), t')
    refresh_token_twice d later h e ne = rw (refresh_token_lem d h e) (
        refresh_token_unknown command later
          (change (is_active command.device_id) (set_iat (now 1 * 1000)) t) (old_session-gone ne))

  module _ (device_id : String) (iat : ℕ) (t : List Device) where
    -- A logout never answers that the token is invalid: without a session for the token it rejects
    -- with the client's error, and changes nothing.
    pub logout_unknown :
        All (λ d. is_session device_id iat d ≡ false) t
        → logout jwt device device_id iat t ≡ (throws (rejection "Record to update not found"), t)
    unfolding logout delete_one_by_device_id_and_iat
    logout_unknown a = ground (
      arith,
      run_update_miss device (is_session device_id iat) mark_deleted t
          (find_first_miss device (is_session device_id iat) t a),
    )

    pub logout_lem :
        (d : Device)
        → Has d t
        → is_session device_id iat d ≡ true
        → logout jwt device device_id iat t
          ≡ (ok (success none), change (is_session device_id iat) mark_deleted t)
    unfolding logout delete_one_by_device_id_and_iat
    logout_lem d h e =
        let (x, q, k, b) = find_first_hit device (is_session device_id iat) t h e in
        ground (arith, run_update_hit device (is_session device_id iat) mark_deleted t q)

    -- A logout with the token of a session succeeds and ends the session: a later refresh with that
    -- token is refused and changes nothing.
    pub logout_ends_session :
        (d : Device) (user_id : ℕ) (now : ℕ → ℕ)
        → Has d t
        → is_session device_id iat d ≡ true
        → let (r, t') = logout jwt device device_id iat t in
          (r ≡ ok (success none))
          × (refresh_token jwt device
                (record { user_id = user_id; device_id = device_id; iat = iat })
                now
                t'
              ≡ (ok (unauthorized "Invalid refresh token"), t'))
    logout_ends_session d user_id now h e =
        let run = logout_lem d h e in
        let ended = change-none (is_session device_id iat) mark_deleted t (λ x. ground arith) in
        (
          ap (λ (p : Result (Notification (Unit {0})) × List Device). p.0) run,
          rw run (
              refresh_token_unknown (record { user_id = user_id; device_id = device_id; iat = iat })
                now (change (is_session device_id iat) mark_deleted t) ended),
        )
