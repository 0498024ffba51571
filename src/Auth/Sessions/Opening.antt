-- ===== src/Auth/Sessions/Opening.antt =====
-- How a session is opened: what a login leaves in the table of devices.
use photer_api.Base.{
  ℕ, ◌+◌, ◌*◌, ◌≡◌, refl, ◌≢◌, ap, inl, inr, String, true, false, none, some, List, [], ◌∷◌, arith,
  Result, ok, Delegate, All, Has, any, All-Has,
}
use photer_api.Base.Prisma.Calls.{find_first_hit, find_first_miss, run_create_fresh}
use photer_api.Notification.{Notification, success}
use photer_api.Device.{
  Device, same_id, is_session, create, create_device, restore, map_to_domain,
  find_one_by_device_id_and_iat,
}
use photer_api.Auth.Tokens.{
  JwtTokenService, TokenPayload, refresh, generate_access_token, generate_refresh_token,
}
use photer_api.Auth.Sessions.{
  TokenPair, LoginCommand, OauthCommand, holds_valid_token, oauth, login,
}

fresh-any : (d : Device) (t : List Device) → All (λ x. x.id ≢ d.id) t → any (same_id d) t ≡ false
fresh-any d [] a = refl
fresh-any d (x ∷ xs) a = ground (arith, fresh-any d xs a.1)

module _ (jwt : JwtTokenService) (device : Delegate Device same_id) where
  -- What `find_one_by_device_id_and_iat` answers, by the client's answer.
  pub find_one_hit :
      (device_id : String) (iat : ℕ) (t : List Device) (d : Device)
      → Has d t
      → is_session device_id iat d ≡ true
      → (x : Device) × (find_one_by_device_id_and_iat device device_id iat t ≡ some x)
        × Has x t
        × (is_session device_id iat x ≡ true)
  unfolding find_one_by_device_id_and_iat map_to_domain restore
  find_one_hit device_id iat t d h e =
      let (x, q, k, b) = find_first_hit device (is_session device_id iat) t h e in
      (x, ground (arith, q), k, b)

  pub find_one_miss :
      (device_id : String) (iat : ℕ) (t : List Device)
      → All (λ d. is_session device_id iat d ≡ false) t
      → find_one_by_device_id_and_iat device device_id iat t ≡ none
  unfolding find_one_by_device_id_and_iat
  find_one_miss device_id iat t a =
      ground (arith, find_first_miss device (is_session device_id iat) t a)

  module _ (command : OauthCommand) (uuid : String) (now : ℕ → ℕ) (t : List Device) where
    abbrev pub issued : TokenPair
    issued = record {
      access_token = generate_access_token jwt command.user_id (now 0);
      refresh_token = generate_refresh_token jwt command.user_id uuid (now 1);
    }

    abbrev pub opened : Device
    opened =
        create uuid command.user_id command.device_name command.ip (now 1)
          (now 1 + jwt.jwt_refresh_expiration_time)

    oauth_lem :
        All (λ d. d.id ≢ uuid) t
        → oauth jwt device command uuid now t ≡ (ok (success (some issued)), opened ∷ t)
    unfolding oauth create create_device
    oauth_lem a = ground (
      arith,
      jwt.decode-sign (refresh command.user_id uuid) jwt.jwt_refresh_expiration_time (now 1),
      run_create_fresh device opened t (fresh-any opened t a),
    )

  module _ (command : LoginCommand) (uuid : String) (now : ℕ → ℕ) (t : List Device) where
    abbrev pub as_oauth : OauthCommand
    as_oauth = record {
      user_id = command.user_id;
      ip = command.ip;
      device_name = command.device_name;
    }

    pub login_lem :
        holds_valid_token jwt command.refresh_token (now 0) ≡ false
        → All (λ d. d.id ≢ uuid) t
        → login jwt device command uuid now t ≡ (
          ok (success (some (issued as_oauth uuid (λ i. now (i + 1)) t))),
          opened as_oauth uuid (λ i. now (i + 1)) t ∷ t,
        )
    unfolding login
    login_lem free a = rw (free, login) (oauth_lem as_oauth uuid (λ i. now (i + 1)) t a)

    -- The only session of a new device is the one just opened.
    opened_unique :
        (d x : Device) (iat : ℕ)
        → All (λ y. y.id ≢ uuid) t
        → Has x (d ∷ t)
        → is_session uuid iat x ≡ true
        → x ≡ d
    opened_unique d x iat a (inl e) b = e
    opened_unique d x iat a (inr k) b = absurd (All-Has (λ y. y.id ≢ uuid) t a k (ground arith))

    -- A login that presents no valid refresh token, under an identifier that no device has,
    -- succeeds; the refresh token that it returns names the user and the new device, and the table
    -- then holds a session of that user for the token's device and issue time.
    login_opens_session :
        holds_valid_token jwt command.refresh_token (now 0) ≡ false
        → All (λ d. d.id ≢ uuid) t
        → let (r, t') = login jwt device command uuid now t in
          (tokens : TokenPair) × (p : TokenPayload) × (d : Device) × (r
            ≡ ok (success (some tokens)))
          × (jwt.decode tokens.refresh_token ≡ some p)
          × (p.claims ≡ refresh command.user_id uuid)
          × (find_one_by_device_id_and_iat device uuid (p.iat * 1000) t' ≡ some d)
          × (d.user_id ≡ command.user_id)
    unfolding create generate_refresh_token
    login_opens_session free a =
        let later : ℕ → ℕ = λ i. now (i + 1) in
        let d : Device = opened as_oauth uuid later t in
        let run = login_lem free a in
        let (x, q, k, b) = find_one_hit uuid (now 2 * 1000) (d ∷ t) d (inl refl) (ground arith) in
        (
          issued as_oauth uuid later t,
          record {
            claims = refresh command.user_id uuid;
            iat = now 2;
            exp = now 2 + jwt.jwt_refresh_expiration_time;
          },
          x,
          ap (λ (p : Result (Notification TokenPair) × List Device). p.0) run,
          jwt.decode-sign (refresh command.user_id uuid) jwt.jwt_refresh_expiration_time (now 2),
          refl,
          rw run q,
          ap (λ (y : Device). y.user_id) (opened_unique d x (now 2 * 1000) a k b),
        )
