-- ===== src/Auth/Validation/Strategies.antt =====
-- The strategies over tokens, side by side.
use photer_api.Base.{
  ℕ, ◌<◌, ◌≡◌, ◌⊎◌, inl, inr, String, true, false, none, some, List, arith, ok, throws, Delegate,
  All, Has, All-Has, Option-cases, Bool-cases,
}
use photer_api.Device.{unix_to_iso_string}
use photer_api.User.Repository.{UserRow, same_user, has_id}
use photer_api.User.Repository.Reads.{find_by_id_lem, find_by_email_lem}
use photer_api.User.Repository.{has_email, map_to_domain}
use photer_api.Auth.Accounts.{Bcrypt}
use photer_api.Auth.Validation.{
  unauthorized_exception, accepts, validate_user, validate_user_by_id, local_validate,
  bearer_validate, optional_validate, refresh_validate,
}

module _ (user : Delegate UserRow same_user) (now : ℕ) (t : List UserRow) where
  -- For the key of a token, which is not 0, the three strategies agree: all take it for the user of
  -- a row, or no row has the key and two of them reject the request while the optional one takes it
  -- for a request without a user.
  pub strategies_agree :
      (user_id iat : ℕ) (device_id : String)
      → 0 < user_id
      → ((r : UserRow) × Has r t
          × (r.id ≡ user_id)
          × (bearer_validate user user_id now t ≡ ok user_id)
          × (optional_validate user user_id now t ≡ some user_id)
          × (refresh_validate user user_id device_id iat now t
              ≡ ok (record {
                user_id = user_id;
                device_id = device_id;
                iat = unix_to_iso_string (some iat) now;
              })))
        ⊎ (All (λ r. has_id user_id r ≡ false) t
            × (bearer_validate user user_id now t ≡ throws unauthorized_exception)
            × (optional_validate user user_id now t ≡ none)
            × (refresh_validate user user_id device_id iat now t ≡ throws unauthorized_exception))
  unfolding bearer_validate optional_validate refresh_validate validate_user_by_id
  strategies_agree user_id iat device_id positive =
      elim (Option-cases (user.find_first (has_id user_id) t)) [
        | inl n ↦
            let read = find_by_id_lem user now t user_id n in
            inr (
              user.find_first-none (has_id user_id) t n,
              ground (arith, read),
              ground (arith, read),
              ground (arith, read),
            )
        | inr (r, e) ↦
            let read = find_by_id_lem user now t user_id e in
            let (h, k) = user.find_first-some (has_id user_id) t r e in
            inl (
              r,
              h,
              ground (arith, k),
              ground (arith, read),
              ground (arith, read, positive),
              ground (arith, read),
            )
      ]

  -- In a table whose keys start at 1, a login by password is taken for a user with the address
  -- whose stored hash accepts the password. An address of no user, and a user with the address who
  -- has no password or another one, are rejected with one and the same exception.
  local_validate_cases :
      (bcrypt : Bcrypt) (email password : String)
      → All (λ r. 0 < r.id) t
      → ((r : UserRow) × Has r t
          × (has_email email r ≡ true)
          × (accepts bcrypt password r.password ≡ true)
          × (local_validate user bcrypt email password now t ≡ ok r.id))
        ⊎ ((r : UserRow) × Has r t
            × (has_email email r ≡ true)
            × (accepts bcrypt password r.password ≡ false)
            × (local_validate user bcrypt email password now t ≡ throws unauthorized_exception))
        ⊎ (All (λ r. has_email email r ≡ false) t
            × (local_validate user bcrypt email password now t ≡ throws unauthorized_exception))
  unfolding local_validate validate_user map_to_domain
  local_validate_cases bcrypt email password positive =
      elim (Option-cases (user.find_first (has_email email) t)) [
        | inl n ↦
            let read = find_by_email_lem user now t email n in
            inr (inr (user.find_first-none (has_email email) t n, ground (arith, read)))
        | inr (r, e) ↦
            let read = find_by_email_lem user now t email e in
            let (h, k) = user.find_first-some (has_email email) t r e in
            let key : 0 < r.id = All-Has (λ x. 0 < x.id) t positive h in
            elim (Bool-cases (accepts bcrypt password r.password)) [
              | inr wrong ↦ inr (inl (r, h, k, wrong, ground (arith, read, wrong)))
              | inl right ↦ inl (r, h, k, right, ground (arith, read, right, key))
            ]
      ]
