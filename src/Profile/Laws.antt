-- ===== src/Profile/Laws.antt =====
-- A profile comes to be once, and goes with its row.
use photer_api.Base.{
  ℕ, ◌+◌, ◌≡◌, ◌≢◌, ◌⊎◌, inl, inr, refl, true, false, none, some, List, [], ◌∷◌, arith, ok, Result,
  throws, rejection, Result-cases, Option-cases, Bool-cases, Delegate, Sequence, All, Has, any,
  discard, ◌==◌,
}
use photer_api.Base.Prisma.Calls.{find_first_hit, find_first_miss, run_create_fresh, run_delete_hit}
use photer_api.Notification.{
  Notification, success_status, bad_request_status, internal_error_status, success, internal_error,
  not_found, forbidden,
}
use photer_api.User.{User}
use photer_api.User.Repository.{UserRow, same_user}
use photer_api.User.Service.{change_username, update_username_of}
use photer_api.Profile.{
  ProfileRow, same_profile, has_owner, has_profile_id, profile_row, written_profile,
  profile_to_domain, present, create_profile_entity, columns_take, as_stored, save_profile, Profile,
  find_profile_by_user_id, find_profile_by_id, soft_delete_profile,
}
use photer_api.Profile.Commands.{
  Profiles, CreateProfileCommand, UpdateProfileCommand, refusal, create_profile, update_profile,
  delete_profile,
}

module _ (profile : Delegate ProfileRow same_profile) (ids : Sequence ProfileRow (λ r. r.id)) where
  module _ (user : Delegate UserRow same_user) (c : CreateProfileCommand) (now : ℕ → ℕ)
      (s : Profiles) where
    -- The new profile, and its row.
    abbrev pub requested : Profile
    requested =
        create_profile_entity c.user_id c.first_name c.last_name c.birth_date c.country c.city
          c.about_me (now 0)

    abbrev pub created : ProfileRow
    created = profile_row (ids.next_id s.profiles) (as_stored requested)

    unused :
        (t : List ProfileRow)
        → All (λ r. r.id ≢ ids.next_id s.profiles) t
        → All (λ r. has_owner c.user_id r ≡ false) t
        → any (same_profile created) t ≡ false
    unfolding create_profile_entity as_stored
    unused [] a b = refl
    unused (x ∷ xs) a b = ground (arith, a, b, unused xs a.1 b.1)

    save_profile_new :
        All (λ r. has_owner c.user_id r ≡ false) s.profiles
        → columns_take requested ≡ true
        → save_profile profile ids requested s.profiles
          ≡ (ok (profile_to_domain created), created ∷ s.profiles)
    unfolding save_profile create_profile_entity as_stored
    save_profile_new free fit =
        let missing = find_first_miss profile (has_owner c.user_id) s.profiles free in
        let kept =
          profile.update_lem (has_owner c.user_id) (written_profile (as_stored requested))
            s.profiles in
        let added =
          run_create_fresh profile created s.profiles
            (unused s.profiles (ids.next_id-fresh s.profiles) free) in
        ground (arith, missing, kept, added, fit)

    save_profile_refused :
        columns_take requested ≡ false
        → save_profile profile ids requested s.profiles
          ≡ (throws (rejection "The provided value for the column is too long"), s.profiles)
    unfolding save_profile
    save_profile_refused e = ground (arith, e)

    named :
        (n : Notification User) (m : Notification ℕ)
        → refusal n ≡ some m
        → ((n.status ≡ bad_request_status) ⊎ (n.status ≡ internal_error_status))
          × (m.status ≡ n.status)
          × (m.datum ≡ none)
    named n m e = ground arith

    -- The change of the name answers, whatever happens.
    abbrev pub naming : Result (Notification User) × List UserRow
    naming = update_username_of user c.user_id c.username (λ i. now (i + 1)) s.users

    renamed : (n : Notification User) × (naming.0 ≡ ok n)
    unfolding update_username_of
    renamed = elim (Result-cases naming.0) [
      | inl (n, q) ↦ (n, q)
      | inr (e, q) ↦ absurd (ground (arith, q))
    ]

    -- An answer that is no refusal is a success.
    renamed_lem :
        (n : Notification User)
        → naming.0 ≡ ok n
        → refusal {T = ℕ} n ≡ none
        → n.status ≡ success_status
    unfolding update_username_of change_username
    renamed_lem n q e = ground (arith, q, e)

    -- A request of a user without a profile to create one, by the answer to the change of the user
    -- name, which comes first and is kept in each case. If that change is refused or fails, the answer
    -- has its status and no key, and no profile is added. If it succeeds, a profile whose texts the
    -- columns take is added, and its key is the answer; one with a text that is too long for its
    -- column, as a country of 101 letters, is answered as a failure and not added.
    pub create_profile_cases :
        All (λ r. has_owner c.user_id r ≡ false) s.profiles
        → let (a, s') = create_profile profile ids user c now s in
          (n : Notification User) × (naming.0 ≡ ok n)
          × (s'.users ≡ naming.1)
          × (s'.old_avatars ≡ s.old_avatars)
          × (((m : Notification ℕ) × ((n.status ≡ bad_request_status)
                  ⊎ (n.status ≡ internal_error_status))
                × (a ≡ ok m)
                × (m.status ≡ n.status)
                × (m.datum ≡ none)
                × (s'.profiles ≡ s.profiles))
              ⊎ ((n.status ≡ success_status)
                  × (columns_take requested ≡ true)
                  × (a ≡ ok (success (some (ids.next_id s.profiles))))
                  × (s'.profiles ≡ created ∷ s.profiles))
              ⊎ ((n.status ≡ success_status)
                  × (columns_take requested ≡ false)
                  × (a ≡ ok (internal_error "Failed to create profile"))
                  × (s'.profiles ≡ s.profiles)))
    unfolding create_profile find_profile_by_user_id profile_to_domain
    create_profile_cases free =
        let (n, q) = renamed in
        let missing = find_first_miss profile (has_owner c.user_id) s.profiles free in
        elim (Option-cases (refusal {T = ℕ} n)) [
          | inr (m, e) ↦
              let (why, status, datum) = named n m e in
              let run : create_profile profile ids user c now s
                  ≡ (ok m, record s { users = naming.1 }) =
                ground (arith, q, missing, e) in
              rw run (n, q, refl, refl, inl (m, why, refl, status, datum, refl))
          | inl e ↦
              let went : n.status ≡ success_status = renamed_lem n q e in
              elim (Bool-cases (columns_take requested)) [
                | inl fit ↦
                    let saved = save_profile_new free fit in
                    let run : create_profile profile ids user c now s ≡ (
                      ok (success (some (ids.next_id s.profiles))),
                      record s { users = naming.1; profiles = created ∷ s.profiles },
                    ) =
                      ground (arith, q, missing, saved, e) in
                    rw run (n, q, refl, refl, inr (inl (went, fit, refl, refl)))
                | inr long ↦
                    let saved = save_profile_refused long in
                    let run : create_profile profile ids user c now s ≡ (
                      ok (internal_error "Failed to create profile"),
                      record s { users = naming.1 },
                    ) =
                      ground (arith, q, missing, saved, e) in
                    rw run (n, q, refl, refl, inr (inr (went, long, refl, refl)))
              ]
        ]

  -- A user who has a profile and deletes it is left with no row of its key; the address of the
  -- avatar is published, also where there is none, and the users are as they were.
  pub delete_profile_removes :
      (user_id : ℕ) (s : Profiles) {r : ProfileRow}
      → profile.find_first (has_owner user_id) s.profiles ≡ some r
      → let (a, s') = delete_profile profile ids user_id s in
        (a ≡ ok (success none))
        × (s'.profiles ≡ discard (has_profile_id r.id) s.profiles)
        × All (λ x. has_profile_id r.id x ≡ false) s'.profiles
        × (s'.old_avatars ≡ present r.avatar_url ∷ s.old_avatars)
        × (s'.users ≡ s.users)
  unfolding delete_profile find_profile_by_user_id soft_delete_profile profile_to_domain
  delete_profile_removes user_id s {r} found =
      let (x, q, k, b) =
        find_first_hit profile (has_profile_id r.id) s.profiles
          (profile.find_first-some _ s.profiles r found).0 (ground arith) in
      let gone = run_delete_hit profile (has_profile_id r.id) s.profiles q in
      let run : delete_profile profile ids user_id s ≡ (
        ok (success none),
        record s {
          profiles = discard (has_profile_id r.id) s.profiles;
          old_avatars = present r.avatar_url ∷ s.old_avatars;
        },
      ) =
        ground (arith, found, gone) in
      rw run (refl, refl, without s.profiles, refl, refl)
    where
      without :
          (t : List ProfileRow)
          → All (λ x. has_profile_id r.id x ≡ false) (discard (has_profile_id r.id) t)
      without [] = tt
      without (y ∷ ys) = elim (Bool-cases (has_profile_id r.id y)) [
        | inl m ↦ rw m (without ys)
        | inr m ↦ rw m (m, without ys)
      ]

  -- An update changes something only if the profile that it names is one of the user who asks;
  -- otherwise the answer says that it is missing or another's, and no table changes, the one of the
  -- users included.
  pub update_profile_guarded :
      (user : Delegate UserRow same_user) (c : UpdateProfileCommand) (now : ℕ → ℕ) (s : Profiles)
      → ((r : ProfileRow) × Has r s.profiles × (r.id ≡ c.profile_id) × (r.user_id ≡ c.user_id))
        ⊎ (update_profile profile ids user c now s ≡ (ok (not_found "Profile not found"), s))
        ⊎ (update_profile profile ids user c now s ≡ (ok (forbidden "Not profile owner"), s))
  unfolding update_profile find_profile_by_id profile_to_domain
  update_profile_guarded user c now s =
      elim (Option-cases (profile.find_first (has_profile_id c.profile_id) s.profiles)) [
        | inl n ↦ inr (inl (ground (arith, n)))
        | inr (r, e) ↦
            let (h, k) = profile.find_first-some (has_profile_id c.profile_id) s.profiles r e in
            elim (Bool-cases (r.user_id == c.user_id)) [
              | inl mine ↦ inl (r, h, ground (arith, k), ground (arith, mine))
              | inr other ↦ inr (inr (ground (arith, e, other)))
            ]
      ]
