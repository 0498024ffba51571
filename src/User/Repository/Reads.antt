-- ===== src/User/Repository/Reads.antt =====
-- What the repository answers and writes, by the row that the client finds.
use photer_api.Base.{
  ℕ, ◌≡◌, ◌≢◌, refl, ap, String, Option, some, false, List, [], ◌∷◌, arith, ok, Delegate, change,
  All, any,
}
use photer_api.Base.Prisma.Calls.{run_update_hit}
use photer_api.User.{User}
use photer_api.User.Repository.{
  UserRow, same_user, domain_of, has_id, has_username, has_email, has_confirmation_code,
  has_recovery_code, with_confirmation, with_recovery, written, with_new_recovery, find_by_id,
  find_by_username, find_by_email, find_by_confirmation_code, find_user_by_recovery_code, update,
  update_or_create_password_recovery,
}

-- No row has the key or the address of a new one.
pub unused :
    (r : UserRow) (t : List UserRow)
    → All (λ x. x.id ≢ r.id) t
    → All (λ x. has_email r.email x ≡ false) t
    → any (same_user r) t ≡ false
unused r [] a b = refl
unused r (x ∷ xs) a b = ground (arith, a, b, unused r xs a.1 b.1)

module _ (user : Delegate UserRow same_user) (now : ℕ) (t : List UserRow) where
  pub find_by_id_lem :
      (id : ℕ) {o : Option UserRow}
      → user.find_first (has_id id) t ≡ o
      → find_by_id user id now t ≡ domain_of with_confirmation now o
  unfolding find_by_id
  find_by_id_lem id e = ap (domain_of with_confirmation now) e

  pub find_by_username_lem :
      (name : String) {o : Option UserRow}
      → user.find_first (has_username name) t ≡ o
      → find_by_username user name now t ≡ domain_of with_confirmation now o
  unfolding find_by_username
  find_by_username_lem name e = ap (domain_of with_confirmation now) e

  pub find_by_email_lem :
      (email : String) {o : Option UserRow}
      → user.find_first (has_email email) t ≡ o
      → find_by_email user email now t ≡ domain_of with_confirmation now o
  unfolding find_by_email
  find_by_email_lem email e = ap (domain_of with_confirmation now) e

  pub find_by_confirmation_code_lem :
      (code : String) {o : Option UserRow}
      → user.find_first (has_confirmation_code code) t ≡ o
      → find_by_confirmation_code user code now t ≡ domain_of with_confirmation now o
  unfolding find_by_confirmation_code
  find_by_confirmation_code_lem code e = ap (domain_of with_confirmation now) e

  pub find_user_by_recovery_code_lem :
      (code : String) {o : Option UserRow}
      → user.find_first (has_recovery_code code) t ≡ o
      → find_user_by_recovery_code user code now t ≡ domain_of with_recovery now o
  unfolding find_user_by_recovery_code
  find_user_by_recovery_code_lem code e = ap (domain_of with_recovery now) e

module _ (user : Delegate UserRow same_user) (u : User) (t : List UserRow) {r : UserRow} where
  pub update_hit :
      (now : ℕ → ℕ)
      → user.find_first (has_id u.id) t ≡ some r
      → update user u now t
        ≡ (ok (find_by_id user u.id (now 1) t), change (has_id u.id) (written u (now 0)) t)
  unfolding update
  update_hit now e = ground (arith, run_update_hit user (has_id u.id) (written u (now 0)) t e)

  pub update_recovery_hit :
      user.find_first (has_id u.id) t ≡ some r
      → update_or_create_password_recovery user u t
        ≡ (ok tt, change (has_id u.id) (with_new_recovery u) t)
  unfolding update_or_create_password_recovery
  update_recovery_hit e =
      ground (arith, run_update_hit user (has_id u.id) (with_new_recovery u) t e)
