-- ===== src/Auth/Accounts.antt =====
-- The state of the account use cases: the table of users and what the mail server has taken. The
-- services of apps/gateway/src/core/services over bcrypt and nodemailer are parameters.
pub mod Plain
use photer_api.Base.{◌≡◌, String, Bool, true, false, List, ◌∷◌, Action, Result, ok, throws, ◌===◌}
use photer_api.User.Repository.{UserRow}

-- email-templates: which page, with what it shows.
pub data EmailTemplate : Type 0 where
  registration_page : (confirmation_code base_url : String) → EmailTemplate
  password_recovery_page : (recovery_code base_url : String) → EmailTemplate
  oauth_registration_page : (username : String) → EmailTemplate

pub record Email : Type 0 where
  pub recipient : String
  pub template : EmailTemplate
  pub subject : String

pub record Accounts : Type 0 where
  pub users : List UserRow
  pub outbox : List Email

abbrev pub on_users : {A : Type 0} → Action (List UserRow) A → Action Accounts A
on_users m s = let (r, t) = m s.users in (r, record s { users = t })

-- What the mail server answers to a message.
abbrev pub Transporter : Type 0
Transporter = Email → Result Bool

-- `await mailerService.sendEmail(…)`
abbrev pub send_email : Transporter → Email → Action Accounts Bool
send_email transporter email s = elim (transporter email) [
  | ok sent ↦ (ok sent, record s { outbox = email ∷ s.outbox })
  | throws e ↦ (throws e, s)
]

-- The call without `await`: its failure does not reach the use case.
abbrev pub post_email : Transporter → Email → Action Accounts (Unit {0})
post_email transporter email s = elim (transporter email) [
  | ok sent ↦ (ok tt, record s { outbox = email ∷ s.outbox })
  | throws e ↦ (ok tt, s)
]

-- bcrypt, as services/crypto/crypto.service.ts calls it.
pub record Bcrypt : Type 0 where
  pub hash : (password salt_or_rounds : String) → String
  pub compare : (password hash : String) → Bool
  pub compare-hash : (p s : String) → compare p (hash p s) ≡ true
  pub hash-truthy : (p s : String) → (hash p s === "") ≡ false
