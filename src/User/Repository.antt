-- ===== src/User/Repository.antt =====
-- apps/gateway/src/features/user/infrastructure/user.repository.ts. A row of `User` carries its one
-- confirmation and its one recovery, which the schema relates to it by the user's id. A query reads
-- the relation that it includes and no other.
pub mod Reads
use photer_api.Base.{
  ℕ, String, Bool, true, false, not, ◌&&◌, ◌||◌, Option, none, some, List, ◌==◌, ◌===◌, truthy,
  is_some, Action, Result, ok, throws, pure, ◌>>=◌, ◌>>◌, Delegate, Sequence, run_update,
  run_create, if◌then◌else◌,
}
use photer_api.User.{User}

pub data AccountType : Type 0 where
  personal business : AccountType

pub record EmailConfirmation : Type 0 where
  pub confirmation_code : String
  pub expiration_date : ℕ
  pub is_confirmed : Bool

pub record PasswordRecovery : Type 0 where
  pub recovery_code : String
  pub expiration_date : ℕ

pub record UserRow : Type 0 where
  pub id : ℕ
  pub username : String
  pub password : Option String
  pub email : String
  pub created_at : ℕ
  pub is_deleted : Bool
  pub updated_at : ℕ
  pub account_type : AccountType
  pub email_confirmation : Option EmailConfirmation
  pub password_recovery : Option PasswordRecovery

-- `@id` and `email @unique` of the schema. The codes are unique too; they are random UUIDs.
abbrev pub same_user : UserRow → UserRow → Bool
same_user r s = r.id == s.id || r.email === s.email

-- `value ?? fallback`
abbrev pub or_else {ℓ} : {A : Type ℓ} → Option A → A → A
or_else none d = d
or_else (some a) d = a

abbrev code_of : Option EmailConfirmation → String
code_of none = ""
code_of (some c) = c.confirmation_code

abbrev expiration_of : Option EmailConfirmation → ℕ → ℕ
expiration_of none now = now
expiration_of (some c) now = c.expiration_date

abbrev confirmed_of : Option EmailConfirmation → Bool
confirmed_of none = false
confirmed_of (some c) = c.is_confirmed

abbrev recovery_code_of : Option PasswordRecovery → Option String
recovery_code_of none = none
recovery_code_of (some p) = some p.recovery_code

abbrev recovery_expiration_of : Option PasswordRecovery → Option ℕ
recovery_expiration_of none = none
recovery_expiration_of (some p) = some p.expiration_date

-- `now` is the default for the expiration of a confirmation that is not there.
unfoldable pub map_to_domain : (now : ℕ) → UserRow → User
map_to_domain now r = record {
  id = r.id;
  username = r.username;
  password = r.password;
  email = r.email;
  created_at = r.created_at;
  updated_at = r.updated_at;
  is_deleted = r.is_deleted;
  confirmation_code = code_of r.email_confirmation;
  confirmation_expiration = expiration_of r.email_confirmation now;
  is_confirmed = confirmed_of r.email_confirmation;
  recovery_code = recovery_code_of r.password_recovery;
  recovery_expiration = recovery_expiration_of r.password_recovery;
}

-- `include: { emailConfirmation: true }` and `include: { passwordRecovery: true }`
abbrev pub with_confirmation : UserRow → UserRow
with_confirmation r = record r { password_recovery = none }

abbrev pub with_recovery : UserRow → UserRow
with_recovery r = record r { email_confirmation = none }

abbrev pub domain_of : (UserRow → UserRow) → ℕ → Option UserRow → Option User
domain_of including now none = none
domain_of including now (some r) = some (map_to_domain now (including r))

abbrev pub has_id : ℕ → UserRow → Bool
has_id id r = r.id == id

abbrev pub has_username : String → UserRow → Bool
has_username username r = r.username === username

abbrev pub has_email : String → UserRow → Bool
has_email email r = r.email === email

abbrev pub has_confirmation_code : String → UserRow → Bool
has_confirmation_code code r = elim r.email_confirmation [
  | none ↦ false
  | some c ↦ c.confirmation_code === code
]

abbrev pub has_recovery_code : String → UserRow → Bool
has_recovery_code code r = elim r.password_recovery [
  | none ↦ false
  | some p ↦ p.recovery_code === code
]

abbrev pub confirmation : User → EmailConfirmation
confirmation u = record {
  confirmation_code = u.confirmation_code;
  expiration_date = u.confirmation_expiration;
  is_confirmed = u.is_confirmed;
}

-- The recovery written over an old one; an entity with a recovery code has an expiration, and an
-- update by `undefined` would keep the old one.
abbrev pub recovery : String → Option ℕ → Option PasswordRecovery → Option PasswordRecovery
recovery code (some expiration) old =
    some (record { recovery_code = code; expiration_date = expiration })
recovery code none none = none
recovery code none (some old) = some (record old { recovery_code = code })

-- The row that `create` inserts, less its key.
abbrev pub row_of : ℕ → User → UserRow
row_of id u = record {
  id = id;
  username = u.username;
  password = u.password;
  email = u.email;
  created_at = u.created_at;
  is_deleted = u.is_deleted;
  updated_at = u.updated_at;
  account_type = personal;
  email_confirmation = some (confirmation u);
  password_recovery = none;
}

-- The three writes of the transaction of `update`, on one row.
abbrev pub written : User → ℕ → UserRow → UserRow
written u now r = record r {
  username = u.username;
  password = u.password;
  updated_at = now;
  email_confirmation = some (confirmation u);
  password_recovery = elim u.recovery_code [
    | none ↦ none
    | some code ↦
        if truthy code then recovery code u.recovery_expiration r.password_recovery else none
  ];
}

abbrev pub with_new_recovery : User → UserRow → UserRow
with_new_recovery u r = record r {
  updated_at = u.updated_at;
  password = u.password;
  password_recovery =
      recovery (or_else u.recovery_code "") u.recovery_expiration r.password_recovery;
}

abbrev pub with_new_confirmation : User → UserRow → UserRow
with_new_confirmation u r = record r {
  updated_at = u.updated_at;
  email_confirmation = some (confirmation u);
}

abbrev pub has_confirmation : ℕ → UserRow → Bool
has_confirmation id r = r.id == id && is_some r.email_confirmation

module _ (user : Delegate UserRow same_user) where
  unfoldable pub create : Sequence UserRow (λ r. r.id) → User → Action (List UserRow) (Unit {0})
  create keys u t = (do run_create user (row_of (keys.next_id t) u); pure tt) t

  unfoldable pub find_by_id : ℕ → (now : ℕ) → List UserRow → Option User
  find_by_id id now t = domain_of with_confirmation now (user.find_first (has_id id) t)

  unfoldable pub find_by_username : String → (now : ℕ) → List UserRow → Option User
  find_by_username username now t =
      domain_of with_confirmation now (user.find_first (has_username username) t)

  unfoldable pub find_by_email : String → (now : ℕ) → List UserRow → Option User
  find_by_email email now t = domain_of with_confirmation now (user.find_first (has_email email) t)

  unfoldable pub find_by_confirmation_code : String → (now : ℕ) → List UserRow → Option User
  find_by_confirmation_code code now t =
      domain_of with_confirmation now (user.find_first (has_confirmation_code code) t)

  unfoldable pub find_user_by_recovery_code : String → (now : ℕ) → List UserRow → Option User
  find_user_by_recovery_code code now t =
      domain_of with_recovery now (user.find_first (has_recovery_code code) t)

  -- The writes after the first do not reject. The last read goes by the client and not by the
  -- transaction, so it sees the rows from before the commit.
  unfoldable pub update : User → (now : ℕ → ℕ) → Action (List UserRow) (Option User)
  update u now t =
      (do run_update user (has_id u.id) (written u (now 0)); pure (find_by_id u.id (now 1) t)) t

  unfoldable pub update_or_create_password_recovery : User → Action (List UserRow) (Unit {0})
  update_or_create_password_recovery u = do
    run_update user (has_id u.id) (with_new_recovery u)
    pure tt

  -- The transaction rejects as a whole for a user without a confirmation.
  unfoldable pub update_confirmation : User → Action (List UserRow) (Unit {0})
  update_confirmation u = do
    run_update user (has_confirmation u.id) (with_new_confirmation u)
    pure tt

  unfoldable pub update_user_account_type :
      ℕ → AccountType → (now : ℕ) → Action (List UserRow) UserRow
  update_user_account_type user_id account_type now =
      run_update user (has_id user_id)
        (λ r. record r { account_type = account_type; updated_at = now })
