-- ===== src/User/Queries.antt =====
-- infrastructure/user.query-repository.ts and infrastructure/mappers/user.mpper.ts of
-- apps/gateway/src/features/user.
use photer_api.Base.{ℕ, String, Option, none, some, List, Result, ok, throws, error, Delegate}
use photer_api.User.Repository.{UserRow, same_user, has_id}

pub record AuthMeOutputDto : Type 0 where
  pub user_id : ℕ
  pub email : String

-- A property of `null` is read for a user that is not there.
unfoldable pub to_auth_me_output : Option UserRow → Result AuthMeOutputDto
to_auth_me_output none = throws (error "Cannot read properties of null (reading 'id')")
to_auth_me_output (some u) = ok (record { user_id = u.id; email = u.email })

module _ (user : Delegate UserRow same_user) where
  unfoldable pub find_authenticated_user_by_id : ℕ → List UserRow → Result AuthMeOutputDto
  unfolding to_auth_me_output
  find_authenticated_user_by_id id t = to_auth_me_output (user.find_first (has_id id) t)
