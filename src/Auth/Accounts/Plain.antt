-- ===== src/Auth/Accounts/Plain.antt =====
-- Stand-ins for bcrypt and for the mail server: a hash that keeps the password behind a letter, and
-- a server that takes every message.
use photer_api.Base.{◌≡◌, String, Bool, true, false, ok, ◌===◌, arith, ◌≢◌, ap}
use photer_api.Auth.Accounts.{Bcrypt, Transporter}

abbrev pub delivered : Transporter
delivered email = ok true

abbrev pub marked : String → String
marked password = String.◌∷◌ "$" password

pub same_text : (s : String) → (s === s) ≡ true
same_text s = ground arith

is_nonempty : String → Bool
is_nonempty String.[] = false
is_nonempty (String.◌∷◌ c s) = true

pub marked-nonempty : (s : String) → (marked s === "") ≡ false
unfolding is_nonempty
marked-nonempty s =
    let differs : marked s ≢ "" = λ p. (let q : true ≡ false = ap is_nonempty p in ground arith) in
    ground arith

abbrev pub plain_bcrypt : Bcrypt
plain_bcrypt = record {
  hash = λ password salt. marked password;
  compare = λ password hash. marked password === hash;
  compare-hash = λ p s. same_text (marked p);
  hash-truthy = λ p s. marked-nonempty p;
}
