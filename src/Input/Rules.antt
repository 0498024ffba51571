-- ===== src/Input/Rules.antt =====
-- What the DTOs leave to the entities behind them.
use photer_api.Base.{
  ℕ, ◌≡◌, ◌⊎◌, inl, inr, refl, String, true, not, ◌&&◌, some, List, [], ◌∷◌, arith, leb, ltb, ok,
  codes, points, units, every, js_length, trim, ◌===◌, if◌then◌else◌,
}
use photer_api.User.{User, update_username, has_username_length, has_username_chars}
use photer_api.Input.{ClassValidator, is_word_char}
use photer_api.Input.Accounts.{
  RegistrationDto, NewPasswordBody, is_registration_email, registration_errors, login_errors,
  new_password_errors,
}
use photer_api.Input.Profiles.{ProfileDto, create_profile_errors, update_profile_errors}

-- A text of word characters has as many units as characters.
word-units : (cs : List ℕ) → every is_word_char cs ≡ true → units cs ≡ points cs
word-units [] e = refl
word-units (c ∷ cs) e =
    let rest = word-units cs (ground arith) in
    let small : ltb c 0x10000 ≡ true = ground arith in ground (arith, rest, small)

module _ (v : ClassValidator) where
  fits :
      (s : String) (u : User) (now : ℕ)
      → v.is_length 6 30 s ≡ true
      → every is_word_char (codes s) ≡ true
      → (update_username s now u).0 ≡ ok (not (u.username === s))
  unfolding update_username has_username_length has_username_chars js_length
  fits s u now long word =
      let same = word-units (codes s) word in
      let counted = v.is_length_lem 6 30 s in ground (arith, same, counted, long, word)

  -- A user name that one of the three DTOs lets through is one that `updateUsername` of the entity
  -- accepts: it does not throw, and answers whether the name is a new one.
  pub accepted_username_fits :
      (s : String) (u : User) (now : ℕ)
      → ((d : RegistrationDto) × (d.username ≡ some s) × (registration_errors v d ≡ []))
        ⊎ ((d : ProfileDto) × (d.username ≡ some s)
            × ((create_profile_errors v d ≡ []) ⊎ (update_profile_errors v d ≡ [])))
      → (update_username s now u).0 ≡ ok (not (u.username === s))
  unfolding registration_errors create_profile_errors update_profile_errors
  accepted_username_fits s u now accepted =
      let word : (v.is_length 6 30 s ≡ true) × (every is_word_char (codes s) ≡ true) =
        elim accepted [
          | inl (d, e, q) ↦ (ground arith, ground arith)
          | inr (d, e, inl q) ↦ (ground arith, ground arith)
          | inr (d, e, inr q) ↦ (ground arith, ground arith)
        ] in
      fits s u now word.0 word.1

  -- The rules for passwords, of a registration and of a new password after a recovery that are both
  -- let through. The login lets the address and the password of the registration through. With the
  -- new password and an address of the right form, it lets them through only if the trimmed password
  -- has 6 to 20 characters, of which the recovery asks nothing; otherwise it refuses the password.
  pub password_rules :
      (r : RegistrationDto) (d : NewPasswordBody) (p email : String)
      → registration_errors v r ≡ []
      → new_password_errors v d ≡ []
      → d.new_password ≡ some p
      → is_registration_email v (trim email) ≡ true
      → (login_errors v (record { email = r.email; password = r.password }) ≡ [])
        × (login_errors v (record { email = some email; password = d.new_password }) ≡ (
            if leb 6 (points (codes (trim p))) && leb (points (codes (trim p))) 20
            then []
            else "password" ∷ []))
  unfolding registration_errors login_errors new_password_errors
  password_rules r d p email h e q m = (ground arith, ground (arith, v.is_length_lem 6 20 (trim p)))
