-- ===== src/User.antt =====
-- apps/gateway/src/features/user/domain/user.entity.ts. A method runs on the object, which is its
-- state; `now` numbers the readings of the clock in one call, and a UUID is an argument.
pub mod Examples
pub mod Repository
pub mod Service
pub mod Queries
use photer_api.Base.{
  ℕ, String, Bool, true, false, not, ◌&&◌, ◌||◌, Option, none, some, ltb, leb, ◌==◌, ◌===◌, Action,
  error, pure, throw, codes, every, js_length, DateFns, if◌then◌else◌,
}

pub record User : Type 0 where
  pub id : ℕ
  pub username : String
  pub password : Option String
  pub email : String
  pub created_at : ℕ
  pub updated_at : ℕ
  pub is_deleted : Bool
  pub confirmation_code : String
  pub confirmation_expiration : ℕ
  pub is_confirmed : Bool
  pub recovery_code : Option String
  pub recovery_expiration : Option ℕ

-- `[a-zA-Z0-9_-]`
abbrev is_username_char : ℕ → Bool
is_username_char c =
    (leb b'a' c && leb c b'z')
    || (leb b'A' c && leb c b'Z')
    || (leb b'0' c && leb c b'9')
    || c == b'_'
    || c == b'-'

-- The two checks of `updateUsername`.
unfoldable pub has_username_length : String → Bool
has_username_length s = not (ltb (js_length s) 3 || ltb 30 (js_length s))

unfoldable pub has_username_chars : String → Bool
has_username_chars s = every is_username_char (codes s)

unfoldable pub update_username : String → (now : ℕ) → Action User Bool
update_username new_username now u =
    if u.username === new_username
    then (pure false u)
    else if not (has_username_length new_username)
    then throw (error "Invalid username length") u
    else if not (has_username_chars new_username)
    then throw (error "Username contains invalid characters") u
    else pure true (record u { username = new_username; updated_at = now })

unfoldable pub confirm_email : (now : ℕ) → Action User (Unit {0})
confirm_email now u =
    if u.is_confirmed
    then throw (error "Email already confirmed") u
    else pure tt (record u { is_confirmed = true; updated_at = now })

unfoldable pub update_confirmation_code : String → ℕ → (now : ℕ) → User → User
update_confirmation_code code expiration now u = record u {
  confirmation_code = code;
  confirmation_expiration = expiration;
  updated_at = now;
}

unfoldable pub is_password_recovery_expired : (now : ℕ) → User → Bool
is_password_recovery_expired now u = elim u.recovery_expiration [
  | none ↦ true
  | some expiration ↦ ltb expiration now
]

unfoldable pub update_password : String → (uuid : String) (now : ℕ → ℕ) → Action User (Unit {0})
unfolding is_password_recovery_expired
update_password new_password_hash uuid now u =
    if is_password_recovery_expired (now 0) u
    then throw (error "Recovery code has expired") u
    else pure tt (record u {
      password = some new_password_hash;
      updated_at = now 1;
      recovery_code = some uuid;
      recovery_expiration = some 0;
    })

module _ (dates : DateFns) where
  unfoldable pub create : String → Option String → String → (uuid : String) (now : ℕ → ℕ) → User
  create username password_hash email uuid now = record {
    id = 0;
    username = username;
    password = password_hash;
    email = email;
    created_at = now 0;
    updated_at = now 1;
    is_deleted = false;
    confirmation_code = uuid;
    confirmation_expiration = dates.add (now 2) 1 30;
    is_confirmed = false;
    recovery_code = none;
    recovery_expiration = none;
  }

  unfoldable pub request_password_recovery : (uuid : String) (now : ℕ → ℕ) → User → User
  request_password_recovery uuid now u = record u {
    recovery_code = some uuid;
    recovery_expiration = some (dates.add (now 0) 1 30);
    updated_at = now 1;
  }
