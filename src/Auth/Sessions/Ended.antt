-- ===== src/Auth/Sessions/Ended.antt =====
-- The table of devices under any sequence of the requests that change it.
use photer_api.Base.{
  answered-state, mapped-state, caught-state, ℕ, ◌+◌, ◌≡◌, ◌≢◌, refl, sym, ap, ◌∙◌, ◌⊎◌, inl, inr,
  String, Bool, true, false, none, some, List, ◌∷◌, arith, Action, pure, ◌>>=◌, ok, Delegate, All,
  Has, All-Has, All-map_of, change, All-change, Has-change, Has-change_hit, any, run_update,
  run_update_many, ltb, not, ◌==◌, if◌then◌else◌, Bool-cases, Option-cases, Result, Option, subst,
}
use photer_api.Base.Prisma.Calls.{
  run_update_hit, run_update_miss, run_update_many_lem, run_create_fresh, run_create_clash,
}
use photer_api.Notification.{Notification, success, unauthorized}
use photer_api.Device.{
  Device, same_id, is_session, is_active, is_active_of, is_other, set_iat, mark_deleted, create,
  create_device, update_iat, delete_one_by_device_id_and_iat, delete_one_by_device_id_and_user_id,
  delete_all_other_by_device_id_and_user_id, unix_to_iso_string, find_one_by_device_id_and_iat,
  find_by_device_id,
}
use photer_api.Device.Termination.{terminate_user_device, terminate_all_other_user_devices}
use photer_api.Auth.Tokens.{JwtTokenService, TokenPayload}
use photer_api.Auth.Sessions.{
  LoginCommand, OauthCommand, RefreshTokenCommand, TokenPair, save_session, rotate, login, oauth,
  refresh_token, logout, holds_valid_token,
}
use photer_api.Auth.Sessions.Opening.{as_oauth}
use photer_api.Auth.Sessions.Lifecycle.{refresh_token_unknown}

module _ (jwt : JwtTokenService) (device : Delegate Device same_id) where
  -- One request. The identifier of a new session is one that no row has.
  pub data Step : List Device → List Device → Type 0 where
    by_login :
        {t : List Device} (command : LoginCommand) (uuid : String) (now : ℕ → ℕ)
        → All (λ d. d.id ≢ uuid) t
        → Step t (login jwt device command uuid now t).1
    by_oauth :
        {t : List Device} (command : OauthCommand) (uuid : String) (now : ℕ → ℕ)
        → All (λ d. d.id ≢ uuid) t
        → Step t (oauth jwt device command uuid now t).1
    by_refresh :
        {t : List Device} (command : RefreshTokenCommand) (now : ℕ → ℕ)
        → Step t (refresh_token jwt device command now t).1
    by_logout :
        {t : List Device} (device_id : String) (iat : ℕ)
        → Step t (logout jwt device device_id iat t).1
    by_termination :
        {t : List Device} (device_id : String) (user_id : ℕ)
        → Step t (terminate_user_device device device_id user_id t).1
    by_termination_of_others :
        {t : List Device} (device_id : String) (user_id : ℕ)
        → Step t (terminate_all_other_user_devices device device_id user_id t).1

  pub data Steps : List Device → List Device → Type 0 where
    stop : {t : List Device} → Steps t t
    next : {t u v : List Device} → Step t u → Steps u v → Steps t v

  created-shape :
      (d : Device) (t : List Device)
      → ((create_device device d t).1 ≡ t)
        ⊎ ((create_device device d t).1 ≡ record d { is_deleted = false } ∷ t)
  unfolding create_device
  created-shape d t =
      let new : Device = record d { is_deleted = false } in
      elim (Bool-cases (any (same_id new) t)) [
        | inl clash ↦ inl (ground (arith, run_create_clash device new t clash))
        | inr free ↦ inr (ground (arith, run_create_fresh device new t free))
      ]

  update_iat-state :
      (device_id : String) (iat : ℕ) (t : List Device)
      → (update_iat device device_id iat t).1
        ≡ (run_update device (is_active device_id) (set_iat iat) t).1
  unfolding update_iat
  update_iat-state device_id iat t =
      let update = run_update device (is_active device_id) (set_iat iat) in
      caught-state (update >>= λ result. pure true) (λ e. false) t
      ∙ mapped-state update (λ result. true) t

  module _ (ended : String) where
    -- The table knows the device, and no row of it is active.
    abbrev pub IsEnded : List Device → Type 0
    IsEnded t = ((x : Device) × Has x t × (x.id ≡ ended)) × All (λ d. is_active ended d ≡ false) t

    change-IsEnded :
        (p : Device → Bool) (f : Device → Device) (t : List Device)
        → ((d : Device) → (f d).id ≡ d.id)
        → ((d : Device) → is_active ended d ≡ false → is_active ended (f d) ≡ false)
        → IsEnded t
        → IsEnded (change p f t)
    change-IsEnded p f t same kept ((x, h, e), a) = (
      elim (Bool-cases (p x)) [
        | inl hit ↦ (f x, Has-change_hit p f t h hit, same x ∙ e)
        | inr miss ↦ (x, Has-change p f t h miss, e)
      ],
      All-change (λ d. is_active ended d ≡ false) (λ d. is_active ended d ≡ false) p f t
          (λ d b _. kept d b) (λ d b _. b) a,
    )

    update-IsEnded :
        (p : Device → Bool) (f : Device → Device) (t : List Device)
        → ((d : Device) → (f d).id ≡ d.id)
        → ((d : Device) → is_active ended d ≡ false → is_active ended (f d) ≡ false)
        → IsEnded t
        → IsEnded (run_update device p f t).1
    update-IsEnded p f t same kept i = elim (Option-cases (device.find_first p t)) [
      | inl n ↦ rw (run_update_miss device p f t n) i
      | inr (x, e) ↦ rw (run_update_hit device p f t e) (change-IsEnded p f t same kept i)
    ]

    mark-IsEnded :
        (p : Device → Bool) (t : List Device)
        → IsEnded t
        → IsEnded (run_update device p mark_deleted t).1
    mark-IsEnded p t i = update-IsEnded p mark_deleted t (λ d. refl) (λ d b. ground arith) i

    create-IsEnded :
        (d : Device) (t : List Device)
        → d.id ≢ ended
        → IsEnded t
        → IsEnded (create_device device d t).1
    create-IsEnded d t ne i = elim (created-shape d t) [
      | inl e ↦ subst IsEnded (sym e) i
      | inr e ↦
          let ((x, h, q), a) = i in
          let new : is_active ended (record d { is_deleted = false }) ≡ false = ground arith in
          subst IsEnded (sym e) ((x, inr h, q), (new, a))
    ]

    fresh-ne :
        (uuid : String) (t : List Device) → All (λ d. d.id ≢ uuid) t → IsEnded t → uuid ≢ ended
    fresh-ne uuid t a ((x, h, e), _) q = All-Has (λ d. d.id ≢ uuid) t a h (e ∙ sym q)

    -- The table after a session is saved, and after one is renewed.
    save-IsEnded :
        (user_id : ℕ) (ip device_name uuid : String) (tokens : TokenPair) (p : Option TokenPayload)
        (t : List Device)
        → uuid ≢ ended
        → IsEnded t
        → IsEnded (save_session jwt device user_id ip device_name uuid tokens p t).1
    unfolding create
    save-IsEnded user_id ip device_name uuid tokens none t ne i = i
    save-IsEnded user_id ip device_name uuid tokens (some p) t ne i =
        let d = create uuid user_id device_name ip p.iat p.exp in
        subst IsEnded (sym (mapped-state (create_device device d) (λ _. success (some tokens)) t))
          (create-IsEnded d t ne i)

    rotate-IsEnded :
        (device_id : String) (tokens : TokenPair) (p : Option TokenPayload) (now : ℕ)
        (t : List Device)
        → IsEnded t
        → IsEnded (rotate jwt device device_id tokens p now t).1
    unfolding rotate
    rotate-IsEnded device_id tokens none now t i = i
    rotate-IsEnded device_id tokens (some p) now t i =
        let iat = unix_to_iso_string (some p.iat) now in
        let state = mapped-state (update_iat device device_id iat) (λ _. success (some tokens)) t in
        subst IsEnded (sym (state ∙ update_iat-state device_id iat t))
          (update-IsEnded (is_active device_id) (set_iat iat) t (λ d. refl) (λ d b. ground arith) i)

    oauth-IsEnded :
        (command : OauthCommand) (uuid : String) (now : ℕ → ℕ) (t : List Device)
        → All (λ d. d.id ≢ uuid) t
        → IsEnded t
        → IsEnded (oauth jwt device command uuid now t).1
    unfolding oauth
    oauth-IsEnded command uuid now t fresh i =
        save-IsEnded command.user_id command.ip command.device_name uuid _ _ t
          (fresh-ne uuid t fresh i) i

    answer-state :
        (is_deleted : Bool) (t : List Device)
        → ((if not is_deleted
              then pure (unauthorized {T = Unit {0}} "Invalid or expired token")
              else pure (success none))
            t).1
          ≡ t
    answer-state true t = refl
    answer-state false t = refl

    Step-IsEnded : {t u : List Device} → Step t u → IsEnded t → IsEnded u
    unfolding login logout refresh_token delete_one_by_device_id_and_iat terminate_user_device
        terminate_all_other_user_devices delete_one_by_device_id_and_user_id
        delete_all_other_by_device_id_and_user_id
    Step-IsEnded (by_login {t} command uuid now fresh) i =
        elim (Bool-cases (holds_valid_token jwt command.refresh_token (now 0))) [
          | inl held ↦ rw (held, login) i
          | inr free ↦
              rw (free, login)
                (oauth-IsEnded (as_oauth jwt device command uuid now t) uuid (λ k. now (k + 1)) t
                  fresh i)
        ]
    Step-IsEnded (by_oauth {t} command uuid now fresh) i = oauth-IsEnded command uuid now t fresh i
    Step-IsEnded (by_refresh {t} command now) i =
        elim (Option-cases (find_one_by_device_id_and_iat device command.device_id command.iat t)) [
          | inl n ↦ rw (n, refresh_token) i
          | inr (d, e) ↦ rw (e, refresh_token) (rotate-IsEnded command.device_id _ _ (now 2) t i)
        ]
    Step-IsEnded (by_logout {t} device_id iat) i =
        let answer : Bool → Action (List Device) (Notification (Unit {0})) = λ is_deleted.
          if not is_deleted
          then pure (unauthorized "Invalid or expired token")
          else pure (success none) in
        let delete = run_update device (is_session device_id iat) mark_deleted in
        let state =
          answered-state (delete_one_by_device_id_and_iat device device_id iat) answer t
            (λ b u. answer-state b u)
          ∙ mapped-state delete (λ d. d.is_deleted) t in
        subst IsEnded (sym state) (mark-IsEnded (is_session device_id iat) t i)
    Step-IsEnded (by_termination {t} device_id user_id) i =
        elim (Option-cases (find_by_device_id device device_id t)) [
          | inl n ↦ rw (n, terminate_user_device) i
          | inr (d, e) ↦ elim (Bool-cases (d.user_id == user_id)) [
            | inr other ↦ rw (e, other, terminate_user_device) i
            | inl own ↦
                let delete = run_update device (is_active_of device_id user_id) mark_deleted in
                let state =
                  mapped-state (delete_one_by_device_id_and_user_id device device_id user_id)
                    (λ _. success {T = Unit {0}} none) t
                  ∙ mapped-state delete (λ d. d.is_deleted) t in
                rw (e, own, terminate_user_device)
                  (subst IsEnded (sym state) (mark-IsEnded (is_active_of device_id user_id) t i))
          ]
        ]
    Step-IsEnded (by_termination_of_others {t} device_id user_id) i =
        let delete = run_update_many device (is_other device_id user_id) mark_deleted in
        let state =
          mapped-state (delete_all_other_by_device_id_and_user_id device device_id user_id)
            (λ _. success {T = Unit {0}} none) t
          ∙ mapped-state delete (λ n. ltb 0 n) t in
        subst IsEnded
          (sym (
            state
            ∙ ap (λ (p : Result ℕ × List Device). p.1)
                (run_update_many_lem device (is_other device_id user_id) mark_deleted t)))
          (change-IsEnded (is_other device_id user_id) mark_deleted t (λ d. refl)
            (λ d b. ground arith) i)

    Steps-IsEnded : {t u : List Device} → Steps t u → IsEnded t → IsEnded u
    Steps-IsEnded stop i = i
    Steps-IsEnded (next step rest) i = Steps-IsEnded rest (Step-IsEnded step i)

    -- Once the table knows a device and holds no active row for it, it never again does, whatever
    -- logins, refreshes, logouts and terminations follow in whatever order, if each new session gets
    -- an identifier that no row has: a refresh for the device is refused and changes nothing.
    pub session_never_returns :
        {t u : List Device} (command : RefreshTokenCommand) (now : ℕ → ℕ)
        → Steps t u
        → IsEnded t
        → command.device_id ≡ ended
        → IsEnded u
          × (refresh_token jwt device command now u
              ≡ (ok (unauthorized "Invalid refresh token"), u))
    session_never_returns {t} {u} command now steps i same =
        let (k, a) = Steps-IsEnded steps i in
        let none_left : All (λ d. is_session command.device_id command.iat d ≡ false) u =
          All-map_of (λ d. is_active ended d ≡ false)
            (λ d. is_session command.device_id command.iat d ≡ false) u
            (λ d b. ground (arith, b, same)) a in
        ((k, a), refresh_token_unknown jwt device command now u none_left)
