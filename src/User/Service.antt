-- ===== src/User/Service.antt =====
-- apps/gateway/src/features/user/application/services/user.service.ts
pub mod Usernames
use photer_api.Base.{
  ℕ, ◌+◌, String, Bool, false, not, Option, none, some, List, [], ◌∷◌, ◌==◌, ◌===◌, Action, ok,
  throws, pure, catching, ◌>>=◌, ◌>>◌, Delegate, if◌then◌else◌,
}
use photer_api.Notification.{Notification, success, bad_request, internal_error}
use photer_api.User.{User, update_username}
use photer_api.User.Repository.{
  UserRow, business, same_user, find_by_id, find_by_username, update, update_user_account_type,
}

module _ (user : Delegate UserRow same_user) where
  abbrev is_taken : ℕ → Option User → Bool
  is_taken user_id none = false
  is_taken user_id (some existing) = not (existing.id == user_id)

  -- The name on the entity, then the entity in the table; a refused name writes nothing.
  abbrev save_username : String → (now : ℕ → ℕ) → User → Action (List UserRow) (Notification User)
  save_username new_username now u t =
      let (r, u') = update_username new_username (now 2) u in
      elim r [
        | ok was_updated ↦
            if was_updated
            then (update user u' (λ i. now (i + 3)) >> pure (success (some u'))) t
            else (ok (success (some u')), t)
        | throws e ↦ (throws e, t)
      ]

  unfoldable pub change_username :
      ℕ → String → (now : ℕ → ℕ) → Action (List UserRow) (Notification User)
  change_username user_id new_username now t = elim (find_by_id user user_id (now 0) t) [
    | none ↦ pure (bad_request (record { field = "username"; text = "User not found" } ∷ [])) t
    | some u ↦
        if u.username === new_username
        then pure (success (some u)) t
        else if is_taken user_id (find_by_username user new_username (now 1) t)
        then pure
            (bad_request (record { field = "username"; text = "Username already taken" } ∷ [])) t
        else save_username new_username now u t
  ]

  -- `updateUsername`
  unfoldable pub update_username_of :
      ℕ → String → (now : ℕ → ℕ) → Action (List UserRow) (Notification User)
  unfolding change_username
  update_username_of user_id new_username now =
      catching (change_username user_id new_username now)
        (λ e. pure (internal_error "Failed to update username"))

  unfoldable pub upgrade_to_business_account : ℕ → (now : ℕ) → Action (List UserRow) (Unit {0})
  upgrade_to_business_account user_id now = do
    update_user_account_type user user_id business now
    pure tt
