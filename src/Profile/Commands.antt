-- ===== src/Profile/Commands.antt =====
-- application/use-case of apps/gateway/src/features/profile. The storage service answers through an
-- argument; the events are what was published for the deletion of an old avatar.
use photer_api.Base.{
  ℕ, ◌+◌, String, Bool, not, ◌||◌, Option, none, some, List, ◌∷◌, is_some, truthy, ◌==◌, Action,
  Result, pure, catching, settle, modify, ◌>>=◌, ◌>>◌, Delegate, Sequence, if◌then◌else◌,
}
use photer_api.Notification.{
  Notification, bad_request_status, internal_error_status, success, not_found, forbidden,
  bad_request, internal_error,
}
use photer_api.Auth.Registration.{one}
use photer_api.User.{User}
use photer_api.User.Repository.{UserRow, same_user}
use photer_api.User.Service.{update_username_of}
use photer_api.Profile.{
  Profile, ProfileRow, ProfileChanges, same_profile, create_profile_entity, create_basic,
  update_profile_entity, update_avatar_url, save_profile, find_profile_by_id,
  find_profile_by_user_id, soft_delete_profile,
}

pub record Profiles : Type 0 where
  pub profiles : List ProfileRow
  pub users : List UserRow
  pub old_avatars : List (Option String)

abbrev pub on_profiles : {A : Type 0} → Action (List ProfileRow) A → Action Profiles A
on_profiles m s = let (r, t) = m s.profiles in (r, record s { profiles = t })

abbrev pub on_profile_users : {A : Type 0} → Action (List UserRow) A → Action Profiles A
on_profile_users m s = let (r, t) = m s.users in (r, record s { users = t })

-- `eventBus.publish(new DeleteOldAvatarEvent(url))`
abbrev pub publish : Option String → Action Profiles (Unit {0})
publish url = modify (λ s. record s { old_avatars = url ∷ s.old_avatars })

pub record CreateProfileCommand : Type 0 where
  pub user_id : ℕ
  pub username : String
  pub first_name : String
  pub last_name : String
  pub birth_date : Option ℕ
  pub country : Option String
  pub city : Option String
  pub about_me : Option String

pub record UpdateProfileCommand : Type 0 where
  pub profile_id : ℕ
  pub user_id : ℕ
  pub username : Option String
  pub changes : ProfileChanges

-- A refusal of the change of the name is handed on.
abbrev pub refusal : {T : Type 0} → Notification User → Option (Notification T)
refusal n = elim n.status [
  | bad_request_status ↦ some (record {
    status = bad_request_status;
    datum = none;
    error_message = none;
    extensions = n.extensions;
  })
  | internal_error_status ↦ some (record {
    status = internal_error_status;
    datum = none;
    error_message = n.error_message;
    extensions = none;
  })
  | _ ↦ none
]

abbrev pub has_changes : ProfileChanges → Bool
has_changes c =
    is_some c.first_name
    || is_some c.last_name
    || is_some c.birth_date
    || is_some c.country
    || is_some c.city
    || is_some c.about_me

module _ (profile : Delegate ProfileRow same_profile) (ids : Sequence ProfileRow (λ r. r.id)) where
  module _ (user : Delegate UserRow same_user) where
    abbrev after_name :
        {T : Type 0}
        → ℕ
        → String
        → (now : ℕ → ℕ) → Action Profiles (Notification T)
        → Action Profiles (Notification T)
    after_name user_id username now rest =
        on_profile_users (update_username_of user user_id username now) >>= λ n. elim (refusal n) [
          | none ↦ rest
          | some refused ↦ pure refused
        ]

    unfoldable pub create_profile :
        CreateProfileCommand → (now : ℕ → ℕ) → Action Profiles (Notification ℕ)
    create_profile c now s = elim (find_profile_by_user_id profile c.user_id s.profiles) [
      | some p ↦ pure (bad_request (one "Profile already exists" "username")) s
      | none ↦
          after_name c.user_id c.username (λ i. now (i + 1))
            (catching
              (on_profiles (
                  save_profile profile ids (
                    create_profile_entity c.user_id c.first_name c.last_name c.birth_date c.country
                      c.city c.about_me (now 0)))
                >>= λ saved. pure (success (some saved.id)))
              (λ e. pure (internal_error "Failed to create profile")))
            s
    ]

    -- Steps 4 and 5.
    abbrev save_changes :
        ProfileChanges → Profile → (now : ℕ) → Action Profiles (Notification (Unit {0}))
    save_changes c p now =
        if not (has_changes c)
        then pure (success none)
        else on_profiles (save_profile profile ids (update_profile_entity c now p))
          >> pure (success none)

    unfoldable pub update_profile :
        UpdateProfileCommand → (now : ℕ → ℕ) → Action Profiles (Notification (Unit {0}))
    update_profile c now =
        catching
          (λ s. elim (find_profile_by_id profile c.profile_id s.profiles) [
            | none ↦ pure (not_found "Profile not found") s
            | some p ↦
                if not (p.user_id == c.user_id)
                then pure (forbidden "Not profile owner") s
                else elim c.username [
                  | none ↦ save_changes c.changes p (now 0) s
                  | some name ↦
                      if truthy name
                      then after_name c.user_id name (λ i. now (i + 1))
                          (save_changes c.changes p (now 0)) s
                      else save_changes c.changes p (now 0) s
                ]
          ])
          (λ e. pure (internal_error "Failed to create profile"))

  unfoldable pub delete_profile : ℕ → Action Profiles (Notification (Unit {0}))
  delete_profile user_id s = elim (find_profile_by_user_id profile user_id s.profiles) [
    | none ↦ pure (not_found "Profile not found") s
    | some p ↦
        (on_profiles (soft_delete_profile profile p.id)
            >> publish p.avatar_url
            >> pure (success none))
          s
  ]

  -- The profile of the user, or a new one without names; the new entity has the key 0.
  abbrev basic_profile : ℕ → (now : ℕ) → Action Profiles Profile
  basic_profile user_id now s = elim (find_profile_by_user_id profile user_id s.profiles) [
    | some p ↦ pure p s
    | none ↦
        (on_profiles (save_profile profile ids (create_basic user_id now))
            >> pure (create_basic user_id now))
          s
  ]

  abbrev publish_old : Option String → Action Profiles (Unit {0})
  publish_old none = pure tt
  publish_old (some url) = if truthy url then publish (some url) else pure tt

  -- An address that is missing is answered as a success without one.
  unfoldable pub upload_avatar :
      ℕ
      → (reply : Result (Option String)) (now : ℕ → ℕ)
      → Action Profiles (Notification (Option String))
  upload_avatar user_id reply now =
      catching
        (basic_profile user_id (now 0) >>= λ p. settle reply >>= λ url.
          let p' = update_avatar_url url (now 1) p in
          on_profiles (save_profile profile ids p')
          >> publish_old p.avatar_url
          >> on_profiles (save_profile profile ids p')
          >> pure (success (some url)))
        (λ e. pure (internal_error "Failed to upload avatar"))
