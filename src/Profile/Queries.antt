-- ===== src/Profile/Queries.antt =====
-- apps/gateway/src/features/profile/infrastructure/profile.query-repository.ts. A row stands with the
-- name of its user, which the queries include.
use photer_api.Base.{ℕ, String, Option, none, some, List, Delegate}
use photer_api.Payments.Text.{decimal}
use photer_api.Profile.{ProfileRow, same_profile, has_profile_id, has_owner}

pub record ProfileOutputDto : Type 0 where
  pub id : String
  pub username : String
  pub first_name : String
  pub last_name : String
  pub city : Option String
  pub country : Option String
  pub birth_date : Option ℕ
  pub about_me : Option String
  pub avatar_url : Option String
  pub created_at : ℕ
  pub updated_at : ℕ

-- `mapToOutput`, with the dates for their ISO texts.
unfoldable pub profile_output : ProfileRow → (username : String) → ProfileOutputDto
profile_output p username = record {
  id = decimal p.id;
  username = username;
  first_name = p.first_name;
  last_name = p.last_name;
  city = p.city;
  country = p.country;
  birth_date = p.birth_date;
  about_me = p.about_me;
  avatar_url = p.avatar_url;
  created_at = p.created_at;
  updated_at = p.updated_at;
}

abbrev pub profile_output_of :
    (username_of : ℕ → String) → Option ProfileRow → Option ProfileOutputDto
profile_output_of username_of none = none
profile_output_of username_of (some p) = some (profile_output p (username_of p.user_id))

-- `username_of` is the relation `user`.
module _ (profile : Delegate ProfileRow same_profile) (username_of : ℕ → String) where
  unfoldable pub find_by_id : ℕ → List ProfileRow → Option ProfileOutputDto
  find_by_id id t = profile_output_of username_of (profile.find_first (has_profile_id id) t)

  unfoldable pub find_by_user_id : ℕ → List ProfileRow → Option ProfileOutputDto
  find_by_user_id user_id t =
      profile_output_of username_of (profile.find_first (has_owner user_id) t)
