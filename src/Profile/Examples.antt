-- ===== src/Profile/Examples.antt =====
-- The profile use cases for two users, one of whom has a profile.
use photer_api.Base.{
  ℕ, ◌+◌, ◌≡◌, ◌⊎◌, refl, String, true, false, zero, suc, varchar_takes, none, some, [], ◌∷◌, ok,
  Delegate, Sequence, All, Has, discard, text_discrete,
}
use photer_api.Base.Prisma.Memory.{list_delegate, list_sequence}
use photer_api.Notification.{
  Notification, success_status, bad_request_status, internal_error_status, success, internal_error,
  not_found, forbidden,
}
use photer_api.User.Repository.{UserRow, personal, same_user, find_by_id, map_to_domain}
use photer_api.User.Service.{change_username, update_username_of}
use photer_api.User.{User}
use photer_api.Profile.{
  ProfileRow, ProfileChanges, same_profile, has_profile_id, columns_take, create_profile_entity,
  find_profile_by_user_id, save_profile,
}
use photer_api.Profile.Commands.{
  Profiles, CreateProfileCommand, UpdateProfileCommand, create_profile, update_profile,
  delete_profile,
}
use photer_api.Profile.Laws.{
  created, requested, naming, create_profile_cases, delete_profile_removes, update_profile_guarded,
}

abbrev table : Delegate ProfileRow same_profile
table = list_delegate same_profile

abbrev users : Delegate UserRow same_user
users = list_delegate same_user

abbrev ids : Sequence ProfileRow (λ r. r.id)
ids = list_sequence (λ r. r.id)

abbrev user : ℕ → String → UserRow
user id name = record {
  id = id;
  username = name;
  password = none;
  email = name;
  created_at = 10;
  is_deleted = false;
  updated_at = 10;
  account_type = personal;
  email_confirmation = none;
  password_recovery = none;
}

abbrev profiles : Profiles
profiles = record {
  profiles =
      record {
        id = 4;
        user_id = 7;
        first_name = "Ann";
        last_name = "Lee";
        birth_date = none;
        country = none;
        city = some "Minsk";
        about_me = none;
        avatar_url = some "ann.png";
        created_at = 10;
        updated_at = 10;
        is_deleted = false;
      }
      ∷ [];
  users = user 7 "annie" ∷ user 8 "bobby" ∷ [];
  old_avatars = [];
}

abbrev clock : ℕ → ℕ
clock i = i + 100

abbrev command : CreateProfileCommand
command = record {
  user_id = 8;
  username = "bobby";
  first_name = "Bob";
  last_name = "Ray";
  birth_date = none;
  country = none;
  city = none;
  about_me = none;
}

abbrev changes : ProfileChanges
changes = record {
  first_name = some "Bo";
  last_name = none;
  birth_date = none;
  country = none;
  city = none;
  about_me = none;
}

abbrev update_command : UpdateProfileCommand
update_command = record { profile_id = 4; user_id = 8; username = none; changes = changes }

create_profile_cases_example :
    let (a, s') = create_profile table ids users command clock profiles in
    (n : Notification User) × ((naming table ids users command clock profiles).0 ≡ ok n)
    × (s'.users ≡ (naming table ids users command clock profiles).1)
    × (s'.old_avatars ≡ [])
    × (((m : Notification ℕ) × ((n.status ≡ bad_request_status)
            ⊎ (n.status ≡ internal_error_status))
          × (a ≡ ok m)
          × (m.status ≡ n.status)
          × (m.datum ≡ none)
          × (s'.profiles ≡ profiles.profiles))
        ⊎ ((n.status ≡ success_status)
            × (columns_take (requested table ids users command clock profiles) ≡ true)
            × (a ≡ ok (success (some (ids.next_id profiles.profiles))))
            × (s'.profiles ≡ created table ids users command clock profiles ∷ profiles.profiles))
        ⊎ ((n.status ≡ success_status)
            × (columns_take (requested table ids users command clock profiles) ≡ false)
            × (a ≡ ok (internal_error "Failed to create profile"))
            × (s'.profiles ≡ profiles.profiles)))
create_profile_cases_example =
    create_profile_cases table ids users command clock profiles (refl, tt)

-- A city of 101 letters.
abbrev letters : ℕ → String
letters zero = ""
letters (suc n) = String.◌∷◌ "a" (letters n)

city_too_long :
    create_profile table ids users (record command { city = some (letters 101) }) clock profiles
    ≡ (ok (internal_error "Failed to create profile"), profiles)
unfolding create_profile find_profile_by_user_id update_username_of change_username save_profile
    columns_take varchar_takes create_profile_entity text_discrete find_by_id map_to_domain
city_too_long = refl

delete_profile_removes_example :
    let (a, s') = delete_profile table ids 7 profiles in
    (a ≡ ok (success none))
    × (s'.profiles ≡ discard (has_profile_id 4) profiles.profiles)
    × All (λ x. has_profile_id 4 x ≡ false) s'.profiles
    × (s'.old_avatars ≡ some "ann.png" ∷ [])
    × (s'.users ≡ profiles.users)
unfolding text_discrete
delete_profile_removes_example = delete_profile_removes table ids 7 profiles refl

update_profile_guarded_example :
    ((r : ProfileRow) × Has r profiles.profiles × (r.id ≡ 4) × (r.user_id ≡ 8))
    ⊎ (update_profile table ids users update_command clock profiles
        ≡ (ok (not_found "Profile not found"), profiles))
    ⊎ (update_profile table ids users update_command clock profiles
        ≡ (ok (forbidden "Not profile owner"), profiles))
update_profile_guarded_example =
    update_profile_guarded table ids users update_command clock profiles
