-- ===== src/Auth/Recovery/Roundtrip.antt =====
-- A recovery from the request to the login with the new password.
use photer_api.Base.{
  ℕ, ◌≤◌, ◌≡◌, ◌⊎◌, inr, refl, sym, subst, ap, ◌∙◌, String, true, false, none, some, List, arith,
  Result, ok, Delegate, DateFns, All, Has, change, All-Has, All-change, Has-change_hit, ◌===◌,
}
use photer_api.Base.Prisma.Calls.{find_first_hit, find_first_miss}
use photer_api.Notification.{Notification, success, bad_request}
use photer_api.User.Repository.{
  UserRow, PasswordRecovery, same_user, has_id, has_email, has_recovery_code, with_new_recovery,
  map_to_domain,
}
use photer_api.User.Repository.Reads.{find_by_email_lem, find_user_by_recovery_code_lem}
use photer_api.Auth.Accounts.{Accounts, Transporter, Bcrypt}
use photer_api.Auth.Registration.{one}
use photer_api.Auth.Recovery.{password_recovery, new_password}
use photer_api.Auth.Recovery.Laws.{
  IsReady, IsRequested, request, requested, asked, asked_finds, asked-IsRequested, renewed,
  reset_lem,
}
use photer_api.Auth.Validation.{validate_user}

-- The only user of an address has the password.
abbrev pub HasPassword : String → ℕ → String → UserRow → Type 0
HasPassword email id hash x = (has_email email x ≡ false) ⊎ ((x.id ≡ id) × (x.password ≡ some hash))

pub validate-HasPassword :
    (user : Delegate UserRow same_user) (bcrypt : Bcrypt) (email password salt : String) (now : ℕ)
    {id : ℕ} (t : List UserRow) (x : UserRow)
    → All (HasPassword email id (bcrypt.hash password salt)) t
    → Has x t
    → has_email email x ≡ true
    → validate_user user bcrypt email password now t ≡ success (some id)
unfolding validate_user map_to_domain
validate-HasPassword user bcrypt email password salt now {id} t x a k b =
    let (y, q, k', b') = find_first_hit user (has_email email) t k b in
    let mine = All-Has (HasPassword email id (bcrypt.hash password salt)) t a k' in
    ground (
      arith,
      mine,
      find_by_email_lem user now t email q,
      bcrypt.compare-hash password salt,
      bcrypt.hash-truthy password salt,
    )

module _ (user : Delegate UserRow same_user) (dates : DateFns) (bcrypt : Bcrypt)
    (transporter : Transporter) (base_url email code password salt uuid : String)
    (now later : ℕ → ℕ) (at : ℕ) (s : Accounts) {r : UserRow}
    (only : user.find_first (has_email email) s.users ≡ some r)
    (ready : All (IsReady user email code s r) s.users)
    (in_time : later 1 ≤ dates.add (now 1) 1 30) where
  -- For the only user with an address, a recovery that is asked for with a code that no row has, and
  -- whose new password is set within ninety minutes, succeeds; and the login with the address and
  -- the new password then answers with this user, also where the mail server fails.
  pub recovery_roundtrip :
      let (a, s') = password_recovery user dates transporter base_url email code now s in
      let (b, s'') =
        new_password user bcrypt salt
          (record { new_password = password; recovery_code = code })
          uuid
          later
          s' in
      (b ≡ ok (success none))
      × (validate_user user bcrypt email password at s''.users ≡ success (some r.id))
  recovery_roundtrip =
      let (x, q, i, p, e, k) =
        asked_finds user email code s r dates transporter base_url now only ready in
      let middle = asked user email code s r dates transporter base_url now in
      let hash = bcrypt.hash password salt in
      let f = with_new_recovery (renewed user bcrypt salt password code uuid later x) in
      let run = reset_lem user bcrypt salt password code uuid later middle.1 q p in_time in
      let all : All (HasPassword email r.id hash) (change (has_id x.id) f middle.1.users) =
        All-change
          (IsRequested user email code s r
            (request user email code s r dates transporter base_url now))
          (HasPassword email r.id hash) (has_id x.id) f middle.1.users
          (λ y u h. inr (ground (arith, i), refl)) (λ y u h. ground (arith, i, u))
          (asked-IsRequested user email code s r dates transporter base_url now only ready) in
      let before =
        with_new_recovery (requested user email code s r dates transporter base_url now) r in
      let here : Has (f before) (change (has_id x.id) f middle.1.users) =
        Has-change_hit (has_id x.id) f middle.1.users k (ground (arith, i)) in
      (
        ap (λ (a : Result (Notification (Unit {0})) × Accounts). a.0) run,
        ap
              (λ (a : Result (Notification (Unit {0})) × Accounts).
                validate_user user bcrypt email password at a.1.users)
              run
            ∙ validate-HasPassword user bcrypt email password salt at
                (change (has_id x.id) f middle.1.users) (f before) all here e,
      )

new_password_miss :
    (user : Delegate UserRow same_user) (bcrypt : Bcrypt) (password salt code uuid : String)
    (now : ℕ → ℕ) (s : Accounts)
    → user.find_first (has_recovery_code code) s.users ≡ none
    → new_password user bcrypt salt
        (record { new_password = password; recovery_code = code })
        uuid
        now
        s
      ≡ (ok (bad_request (one "Incorrect recovery code" "recoveryCode")), s)
unfolding new_password
new_password_miss user bcrypt password salt code uuid now s q =
    ground (arith, find_user_by_recovery_code_lem user (now 0) s.users code q)

-- A recovery code that one user has, used in time, is refused when it is used again.
pub new_password_twice :
    (user : Delegate UserRow same_user) (bcrypt : Bcrypt)
    (code password salt uuid again salt' uuid' : String) (now later : ℕ → ℕ) (s : Accounts)
    {x : UserRow} {p : PasswordRecovery}
    → user.find_first (has_recovery_code code) s.users ≡ some x
    → x.password_recovery ≡ some p
    → now 1 ≤ p.expiration_date
    → All (λ y. (has_recovery_code code y ≡ false) ⊎ (y.id ≡ x.id)) s.users
    → (uuid === code) ≡ false
    → let (a, s') =
        new_password user bcrypt salt
          (record { new_password = password; recovery_code = code })
          uuid
          now
          s in
      let (b, s'') =
        new_password user bcrypt salt'
          (record { new_password = again; recovery_code = code })
          uuid'
          later
          s' in
      (a ≡ ok (success none))
      × (b ≡ ok (bad_request (one "Incorrect recovery code" "recoveryCode")))
      × (s'' ≡ s')
new_password_twice user bcrypt code password salt uuid again salt' uuid' now later s {x} q p h u d =
    let f = with_new_recovery (renewed user bcrypt salt password code uuid now x) in
    let run = reset_lem user bcrypt salt password code uuid now s q p h in
    let t = change (has_id x.id) f s.users in
    let gone : All (λ y. has_recovery_code code y ≡ false) t =
      All-change (λ y. (has_recovery_code code y ≡ false) ⊎ (y.id ≡ x.id))
        (λ y. has_recovery_code code y ≡ false) (has_id x.id) f s.users (λ y v e. d)
        (λ y v e. ground arith) u in
    let run' =
      new_password_miss user bcrypt again salt' code uuid' later (record s { users = t })
        (find_first_miss user (has_recovery_code code) t gone) in
    (
      ap (λ (a : Result (Notification (Unit {0})) × Accounts). a.0) run,
      ap
            (λ (a : Result (Notification (Unit {0})) × Accounts).
              (new_password user bcrypt salt'
                (record { new_password = again; recovery_code = code }) uuid' later a.1).0)
            run
          ∙ ap (λ (a : Result (Notification (Unit {0})) × Accounts). a.0) run',
      subst
          (λ (a : Result (Notification (Unit {0})) × Accounts).
            (new_password user bcrypt salt' (record { new_password = again; recovery_code = code })
              uuid' later a.1).1
            ≡ a.1)
          (sym run) (ap (λ (a : Result (Notification (Unit {0})) × Accounts). a.1) run'),
    )
