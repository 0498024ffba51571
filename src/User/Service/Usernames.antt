-- ===== src/User/Service/Usernames.antt =====
-- What a change of the user name does to the table of users.
use photer_api.Base.{
  ℕ, ◌+◌, ◌≡◌, ◌≢◌, ◌⊎◌, inl, inr, refl, sym, subst, ◌∙◌, String, true, false, none, some, List,
  arith, Delegate, All, Has, change, Option-cases, Bool-cases, All-Has, All-change, All-true,
  Has-change_inv, ◌==◌,
}
use photer_api.Base.Prisma.Calls.{find_first_miss}
use photer_api.User.{User, has_username_length, has_username_chars, update_username}
use photer_api.User.Repository.{
  UserRow, same_user, has_id, has_username, written, map_to_domain, with_confirmation,
}
use photer_api.User.Repository.Reads.{find_by_id_lem, find_by_username_lem, update_hit}
use photer_api.User.Service.{update_username_of}

-- Two rows with one name are one user's.
abbrev pub UniqueNames : List UserRow → Type 0
UniqueNames t = (r s : UserRow) → Has r t → Has s t → r.username ≡ s.username → r.id ≡ s.id

module _ (user : Delegate UserRow same_user) where
  module _ (user_id : ℕ) (name : String) (now : ℕ → ℕ) (t : List UserRow) where
    -- The entity that is written back.
    abbrev renamed : UserRow → User
    renamed r = record (map_to_domain (now 0) (with_confirmation r)) {
      username = name;
      updated_at = now 2;
    }

    abbrev after : List UserRow
    after = (update_username_of user user_id name now t).1

    -- With the row of the user found, the table is as it was or the name is written.
    update_username_of-after :
        (r : UserRow)
        → user.find_first (has_id user_id) t ≡ some r
        → (after ≡ t) ⊎ (after ≡ change (has_id user_id) (written (renamed r) (now 3)) t)
    unfolding update_username_of update_username map_to_domain
    update_username_of-after r e =
        let (h, k) = user.find_first-some (has_id user_id) t r e in
        let same : r.id ≡ user_id = ground (arith, k) in
        let me = find_by_id_lem user (now 0) t user_id e in
        let done = update_hit user (record (renamed r) { id = user_id }) t (λ i. now (i + 3)) e in
        ground (arith, me, done, same)

    update_username_of-taken :
        (x : UserRow) → user.find_first (has_username name) t ≡ some x → x.id ≢ user_id → after ≡ t
    unfolding update_username_of map_to_domain
    update_username_of-taken x q ne = ground (arith, find_by_username_lem user (now 1) t name q)

    update_username_of-missing : user.find_first (has_id user_id) t ≡ none → after ≡ t
    unfolding update_username_of
    update_username_of-missing e = ground (arith, find_by_id_lem user (now 0) t user_id e)

    change-UniqueNames :
        (r : UserRow)
        → UniqueNames t
        → ((s : UserRow) → Has s t → s.username ≡ name → s.id ≡ user_id)
        → UniqueNames (change (has_id user_id) (written (renamed r) (now 3)) t)
    unfolding map_to_domain
    change-UniqueNames r unique only a b in_a in_b e =
        elim (Has-change_inv (has_id user_id) (written (renamed r) (now 3)) t in_a) [
          | inl (ha, na) ↦
              elim (Has-change_inv (has_id user_id) (written (renamed r) (now 3)) t in_b) [
                | inl (hb, nb) ↦ unique a b ha hb e
                | inr (y, hy, py, qb) ↦
                    let named : a.username ≡ name = ground arith in
                    let mine = only a ha named in ground arith
              ]
          | inr (x, hx, px, qa) ↦
              elim (Has-change_inv (has_id user_id) (written (renamed r) (now 3)) t in_b) [
                | inl (hb, nb) ↦
                    let named : b.username ≡ name = ground arith in
                    let mine = only b hb named in ground arith
                | inr (y, hy, py, qb) ↦ ground arith
              ]
        ]

    -- A change of a user name keeps the names of different users different.
    pub update_username_of-UniqueNames :
        UniqueNames t → UniqueNames (update_username_of user user_id name now t).1
    update_username_of-UniqueNames unique =
        elim (Option-cases (user.find_first (has_id user_id) t)) [
          | inl e ↦ subst UniqueNames (sym (update_username_of-missing e)) unique
          | inr (r, e) ↦ elim (Option-cases (user.find_first (has_username name) t)) [
            | inl n ↦ settled r e (λ s h k.
                let miss : has_username name s ≡ false =
                  All-Has (λ z. has_username name z ≡ false) t
                    (user.find_first-none (has_username name) t n) h in
                absurd (ground (arith, miss, k)))
            | inr (x, q) ↦
                let (hx, kx) = user.find_first-some (has_username name) t x q in
                elim (Bool-cases (x.id == user_id)) [
                  | inl mine ↦ settled r e (λ s h k.
                      let named : x.username ≡ name = ground (arith, kx) in
                      let one = unique s x h hx (k ∙ sym named) in ground (arith, one, mine))
                  | inr other ↦
                      subst UniqueNames (sym (update_username_of-taken x q (ground arith))) unique
                ]
          ]
        ]
      where
        settled :
            (r : UserRow)
            → user.find_first (has_id user_id) t ≡ some r
            → ((s : UserRow) → Has s t → s.username ≡ name → s.id ≡ user_id)
            → UniqueNames after
        settled r e only = elim (update_username_of-after r e) [
          | inl same ↦ subst UniqueNames (sym same) unique
          | inr done ↦ subst UniqueNames (sym done) (change-UniqueNames r unique only)
        ]

    -- A change of the name that succeeds, to one that no row has, drops the user's pending password
    -- recovery.
    update_username_of_drops_recovery :
        (r : UserRow)
        → user.find_first (has_id user_id) t ≡ some r
        → All (λ s. has_username name s ≡ false) t
        → has_username_length name ≡ true
        → has_username_chars name ≡ true
        → All
            (λ s. (s.id ≢ user_id) ⊎ ((s.username ≡ name) × (s.password_recovery ≡ none)))
            (update_username_of user user_id name now t).1
    unfolding update_username_of update_username map_to_domain
    update_username_of_drops_recovery r e free fits valid =
        let (h, k) = user.find_first-some (has_id user_id) t r e in
        let same : r.id ≡ user_id = ground (arith, k) in
        let differs : has_username name r ≡ false =
          All-Has (λ z. has_username name z ≡ false) t free h in
        let done : after ≡ change (has_id user_id) (written (renamed r) (now 3)) t = ground (
          arith,
          find_by_id_lem user (now 0) t user_id e,
          find_by_username_lem user (now 1) t name
              (find_first_miss user (has_username name) t free),
          update_hit user (record (renamed r) { id = user_id }) t (λ i. now (i + 3)) e,
          same,
          differs,
        ) in
        subst (All Settled) (sym done) (
          All-change (λ s. Unit {0}) Settled (has_id user_id) (written (renamed r) (now 3)) t
            (λ s u p. inr (refl, refl)) (λ s u p. inl (ground arith)) (All-true t))
      where
        Settled : UserRow → Type 0
        Settled s = (s.id ≢ user_id) ⊎ ((s.username ≡ name) × (s.password_recovery ≡ none))
