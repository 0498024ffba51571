-- ===== src/Profile.antt =====
-- apps/gateway/src/features/profile: the entity (domain/profile.entity.ts) and its table
-- (infrastructure/profile.repository.ts). Profile/Commands.antt has the use cases.
pub mod Queries
pub mod Api
pub mod Commands
pub mod Laws
pub mod BirthDate
pub mod Examples
use photer_api.Base.{
  ℕ, ◌≡◌, String, Bool, true, false, Option, none, some, List, ◌==◌, ◌||◌, truthy, Action, Result,
  ok, throws, rejection, pure, ◌&&◌, varchar_takes, varchar_cut, Delegate, Sequence, run_create,
  run_delete, ◌>>=◌, ◌>>◌, if◌then◌else◌,
}

pub record Profile : Type 0 where
  pub id : ℕ
  pub user_id : ℕ
  pub first_name : String
  pub last_name : String
  pub created_at : ℕ
  pub updated_at : ℕ
  pub birth_date : Option ℕ
  pub country : Option String
  pub city : Option String
  pub about_me : Option String
  pub avatar_url : Option String

pub record ProfileRow : Type 0 where
  pub id : ℕ
  pub user_id : ℕ
  pub first_name : String
  pub last_name : String
  pub birth_date : Option ℕ
  pub country : Option String
  pub city : Option String
  pub about_me : Option String
  pub avatar_url : Option String
  pub created_at : ℕ
  pub updated_at : ℕ
  pub is_deleted : Bool

-- The fields that an update may pass.
pub record ProfileChanges : Type 0 where
  pub first_name : Option String
  pub last_name : Option String
  pub birth_date : Option ℕ
  pub country : Option String
  pub city : Option String
  pub about_me : Option String

-- A field that is `undefined` keeps its old value.
abbrev pub kept_or {ℓ} : {A : Type ℓ} → Option A → A → A
kept_or none old = old
kept_or (some new) old = new

abbrev pub kept {ℓ} : {A : Type ℓ} → Option A → Option A → Option A
kept none old = old
kept (some new) old = some new

unfoldable pub create_profile_entity :
    ℕ
    → (first_name last_name : String) (birth_date : Option ℕ)
      (country city about_me : Option String) (now : ℕ)
    → Profile
create_profile_entity user_id first_name last_name birth_date country city about_me now = record {
  id = 0;
  user_id = user_id;
  first_name = first_name;
  last_name = last_name;
  created_at = now;
  updated_at = now;
  birth_date = birth_date;
  country = country;
  city = city;
  about_me = about_me;
  avatar_url = none;
}

unfoldable pub create_basic : ℕ → (now : ℕ) → Profile
unfolding create_profile_entity
create_basic user_id now = create_profile_entity user_id "" "" none none none none now

unfoldable pub update_profile_entity : ProfileChanges → (now : ℕ) → Profile → Profile
update_profile_entity c now p = record p {
  first_name = kept_or c.first_name p.first_name;
  last_name = kept_or c.last_name p.last_name;
  birth_date = kept c.birth_date p.birth_date;
  country = kept c.country p.country;
  city = kept c.city p.city;
  about_me = kept c.about_me p.about_me;
  updated_at = now;
}

unfoldable pub update_avatar_url : Option String → (now : ℕ) → Profile → Profile
update_avatar_url none now p = p
update_avatar_url (some url) now p = record p { avatar_url = some url; updated_at = now }

unfoldable pub delete_avatar : (now : ℕ) → Profile → Profile
delete_avatar now p = record p { avatar_url = none; updated_at = now }

abbrev pub same_profile : ProfileRow → ProfileRow → Bool
same_profile r s = r.id == s.id || r.user_id == s.user_id

abbrev pub has_profile_id : ℕ → ProfileRow → Bool
has_profile_id id r = r.id == id

abbrev pub has_owner : ℕ → ProfileRow → Bool
has_owner user_id r = r.user_id == user_id

-- `text || undefined`
abbrev pub present : Option String → Option String
present none = none
present (some s) = if truthy s then some s else none

unfoldable pub profile_to_domain : ProfileRow → Profile
profile_to_domain r = record {
  id = r.id;
  user_id = r.user_id;
  first_name = r.first_name;
  last_name = r.last_name;
  created_at = r.created_at;
  updated_at = r.updated_at;
  birth_date = r.birth_date;
  country = present r.country;
  city = present r.city;
  about_me = present r.about_me;
  avatar_url = present r.avatar_url;
}

-- The two sides of the `upsert`: an `undefined` is not written.
abbrev pub written_profile : Profile → ProfileRow → ProfileRow
written_profile p r = record r {
  first_name = p.first_name;
  last_name = p.last_name;
  birth_date = kept p.birth_date r.birth_date;
  country = kept p.country r.country;
  city = kept p.city r.city;
  about_me = kept p.about_me r.about_me;
  avatar_url = kept p.avatar_url r.avatar_url;
  updated_at = p.updated_at;
}

abbrev pub profile_row : ℕ → Profile → ProfileRow
profile_row id p = record {
  id = id;
  user_id = p.user_id;
  first_name = p.first_name;
  last_name = p.last_name;
  birth_date = p.birth_date;
  country = p.country;
  city = p.city;
  about_me = p.about_me;
  avatar_url = p.avatar_url;
  created_at = p.created_at;
  updated_at = p.updated_at;
  is_deleted = false;
}

abbrev domain_of_profile : Option ProfileRow → Option Profile
domain_of_profile none = none
domain_of_profile (some r) = some (profile_to_domain r)

abbrev given_takes : ℕ → Option String → Bool
given_takes n none = true
given_takes n (some s) = varchar_takes n s

abbrev given_cut : ℕ → Option String → Option String
given_cut n none = none
given_cut n (some s) = some (varchar_cut n s)

-- The columns of the texts: `VarChar(50)` for the names, 100 for the country and the city, 200 for the
-- last one.
unfoldable pub columns_take : Profile → Bool
columns_take p =
    varchar_takes 50 p.first_name
    && varchar_takes 50 p.last_name
    && given_takes 100 p.country
    && given_takes 100 p.city
    && given_takes 200 p.about_me

unfoldable pub as_stored : Profile → Profile
as_stored p = record p {
  first_name = varchar_cut 50 p.first_name;
  last_name = varchar_cut 50 p.last_name;
  country = given_cut 100 p.country;
  city = given_cut 100 p.city;
  about_me = given_cut 200 p.about_me;
}

module _ (profile : Delegate ProfileRow same_profile) where
  -- `upsert`
  abbrev upsert_profile :
      Sequence ProfileRow (λ r. r.id) → Profile → Action (List ProfileRow) Profile
  upsert_profile ids p t = elim (profile.update (has_owner p.user_id) (written_profile p) t) [
    | some (r, t') ↦ (ok (profile_to_domain r), t')
    | none ↦
        (run_create profile (profile_row (ids.next_id t) p) >>= λ r. pure (profile_to_domain r)) t
  ]

  -- A text that is too long for its column makes the client reject.
  unfoldable pub save_profile :
      Sequence ProfileRow (λ r. r.id) → Profile → Action (List ProfileRow) Profile
  save_profile ids p t =
      if columns_take p
      then upsert_profile ids (as_stored p) t
      else (throws (rejection "The provided value for the column is too long"), t)

  unfoldable pub find_profile_by_id : ℕ → List ProfileRow → Option Profile
  find_profile_by_id id t = domain_of_profile (profile.find_first (has_profile_id id) t)

  unfoldable pub find_profile_by_user_id : ℕ → List ProfileRow → Option Profile
  find_profile_by_user_id user_id t = domain_of_profile (profile.find_first (has_owner user_id) t)

  -- `softDelete`, which deletes the row.
  unfoldable pub soft_delete_profile : ℕ → Action (List ProfileRow) (Unit {0})
  soft_delete_profile id = run_delete profile (has_profile_id id)
