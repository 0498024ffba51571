-- ===== src/Device/Store/Calls.antt =====
-- What each call of the repository of devices answers and leaves, against the slots of the table.
use mathlib.Core.Path.{fun_ext}
use photer_api.Base.{
  ℕ, ◌≡◌, inl, inr, refl, sym, ap, ◌∙◌, subst, String, Bool, true, false, some, is_some, List, ◌∷◌,
  arith, ◌==◌, ◌===◌, pure, ◌>>=◌, Delegate, Result, ok, any, change, run_update, Bool-cases,
  Option-cases,
}
use photer_api.Base.Prisma.Calls.{
  run_update_hit, run_update_miss, run_update_many_lem, run_create_fresh, run_create_clash,
}
use photer_api.Device.{
  Device, same_id, is_session, is_active, is_active_of, is_other, set_iat, mark_deleted,
  create_device, update_iat, delete_one_by_device_id_and_iat, delete_one_by_device_id_and_user_id,
  delete_all_other_by_device_id_and_user_id,
}
use photer_api.Device.Store.{
  ended, Call, create, renew, close, terminate, terminate_others, call, put, not_found_row,
  end_other, respond,
}
use photer_api.Device.Store.Rows.{
  row_at, view, IsUnique, row_at-Has, any-row_at, row_at-none, row_at-change, change-IsUnique,
}
use photer_api.Device.Store.Changes.{update_cases}

module _ (device : Delegate Device same_id) where
  -- A call answers what the slots answer, and leaves the table that they show.
  abbrev pub Refines : Call → List Device → Result Bool × List Device → Type 0
  Refines c t z = IsUnique z.1 × (respond c (view t) ≡ (z.0, view z.1))

  pub create-respond :
      (d : Device) (t : List Device) → IsUnique t → Refines (create d) t (call device (create d) t)
  unfolding create_device
  create-respond d t u =
      let new = record d { is_deleted = false } in
      elim (Option-cases (row_at d.id t)) [
        | inl n ↦
            let free : any (same_id new) t ≡ false = any-row_at new t ∙ ap is_some n in
            let run : call device (create d) t ≡ (ok true, new ∷ t) =
              ground (arith, run_create_fresh device new t free) in
            subst (Refines (create d) t) (sym run) (
              (row_at-none d.id t n, u),
              rw (respond, n)
                  (ap (λ f. (ok true, f))
                    (fun_ext λ j. elim (Bool-cases (j === d.id)) [
                      | inl b ↦ rw b refl
                      | inr b ↦ rw b refl
                    ])),
            )
        | inr (x, e) ↦
            let clash : any (same_id new) t ≡ true = any-row_at new t ∙ ap is_some e in
            let run : call device (create d) t ≡ (ok false, t) =
              ground (arith, run_create_clash device new t clash) in
            subst (Refines (create d) t) (sym run) (
              u,
              rw (respond, e)
                  (elim (Bool-cases x.is_deleted) [ inl b ↦ rw b refl | inr b ↦ rw b refl ]),
            )
      ]

  pub renew-respond :
      (id : String) (iat : ℕ) (t : List Device)
      → IsUnique t
      → Refines (renew id iat) t (call device (renew id iat) t)
  unfolding update_iat
  renew-respond id iat t u =
      elim (update_cases device id (is_active id) (set_iat iat) t (λ d b. ground arith) (λ d. refl)
        u) [
          | inl (n, miss) ↦
              let run : call device (renew id iat) t ≡ (ok false, t) =
                ground (arith, run_update_miss device (is_active id) (set_iat iat) t n) in
              subst (Refines (renew id iat) t) (sym run) (
                u,
                elim (Option-cases (row_at id t)) [
                  | inl none_there ↦ rw (respond, none_there) refl
                  | inr (x, e) ↦
                      let (_, q) = row_at-Has id t e in
                      let gone : x.is_deleted ≡ true = ground (arith, miss x e, q) in
                      rw (respond, e, gone) refl
                ],
              )
          | inr (x, (e, row, b, v)) ↦
              let run : call device (renew id iat) t
                  ≡ (ok true, change (is_active id) (set_iat iat) t) =
                ground (arith, run_update_hit device (is_active id) (set_iat iat) t e) in
              let there : x.is_deleted ≡ false = ground arith in
              subst (Refines (renew id iat) t) (sym run) (
                change-IsUnique (is_active id) (set_iat iat) (λ d. refl) t u,
                rw (respond, row, v, there) refl,
              )
        ]

  -- The two ways to end one session.
  end-respond :
      (c : Call) (id : String) (p : Device → Bool) (t : List Device)
      → ((d : Device) → p d ≡ true → d.id ≡ id)
      → call device c t ≡ (run_update device p mark_deleted >>= λ result. pure result.is_deleted) t
      → ((x : Device)
          → row_at id t ≡ some x
          → p x ≡ true
          → respond c (view t) ≡ (ok true, put id ended (view t)))
      → (((x : Device) → row_at id t ≡ some x → p x ≡ false)
          → respond c (view t) ≡ (not_found_row, view t))
      → IsUnique t
      → Refines c t (call device c t)
  end-respond c id p t at same hit miss u =
      elim (update_cases device id p mark_deleted t at (λ d. refl) u) [
        | inl (n, none_hit) ↦
            let run : call device c t ≡ (not_found_row, t) =
              same ∙ ground (arith, run_update_miss device p mark_deleted t n) in
            subst (Refines c t) (sym run) (u, miss none_hit)
        | inr (x, (e, row, b, v)) ↦
            let run : call device c t ≡ (ok true, change p mark_deleted t) =
              same ∙ ground (arith, run_update_hit device p mark_deleted t e) in
            subst (Refines c t) (sym run) (
              change-IsUnique p mark_deleted (λ d. refl) t u,
              hit x row b ∙ ap (λ f. (ok true, f)) (sym v),
            )
      ]

  -- A table whose row of an identifier, if there is one, does not fit.
  close-miss :
      (id : String) (iat : ℕ) (t : List Device)
      → ((x : Device) → row_at id t ≡ some x → is_session id iat x ≡ false)
      → respond (close id iat) (view t) ≡ (not_found_row, view t)
  close-miss id iat t miss = elim (Option-cases (row_at id t)) [
    | inl n ↦ rw (respond, n) refl
    | inr (x, e) ↦
        let (_, q) = row_at-Has id t e in
        elim (Bool-cases x.is_deleted) [
          | inl gone ↦ rw (respond, e, gone) refl
          | inr there ↦
              let other : (x.iat == iat) ≡ false = ground (arith, miss x e, q, there) in
              rw (respond, e, there, other) refl
        ]
  ]

  terminate-miss :
      (id : String) (user_id : ℕ) (t : List Device)
      → ((x : Device) → row_at id t ≡ some x → is_active_of id user_id x ≡ false)
      → respond (terminate id user_id) (view t) ≡ (not_found_row, view t)
  terminate-miss id user_id t miss = elim (Option-cases (row_at id t)) [
    | inl n ↦ rw (respond, n) refl
    | inr (x, e) ↦
        let (_, q) = row_at-Has id t e in
        elim (Bool-cases x.is_deleted) [
          | inl gone ↦ rw (respond, e, gone) refl
          | inr there ↦
              let other : (x.user_id == user_id) ≡ false = ground (arith, miss x e, q, there) in
              rw (respond, e, there, other) refl
        ]
  ]

  pub close-respond :
      (id : String) (iat : ℕ) (t : List Device)
      → IsUnique t
      → Refines (close id iat) t (call device (close id iat) t)
  unfolding delete_one_by_device_id_and_iat
  close-respond id iat t =
      end-respond (close id iat) id (is_session id iat) t (λ d b. ground arith) refl
        (λ x e b.
          let there : x.is_deleted ≡ false = ground arith in
          let dated : (x.iat == iat) ≡ true = ground arith in rw (respond, e, there, dated) refl)
        (close-miss id iat t)

  pub terminate-respond :
      (id : String) (user_id : ℕ) (t : List Device)
      → IsUnique t
      → Refines (terminate id user_id) t (call device (terminate id user_id) t)
  unfolding delete_one_by_device_id_and_user_id
  terminate-respond id user_id t =
      end-respond (terminate id user_id) id (is_active_of id user_id) t (λ d b. ground arith) refl
        (λ x e b.
          let there : x.is_deleted ≡ false = ground arith in
          let own : (x.user_id == user_id) ≡ true = ground arith in
          rw (respond, e, there, own) refl)
        (terminate-miss id user_id t)

  others-view :
      (id : String) (user_id : ℕ) (t : List Device) (j : String)
      → end_other id user_id j (view t j) ≡ view (change (is_other id user_id) mark_deleted t) j
  others-view id user_id t j = elim (Option-cases (row_at j t)) [
    | inl n ↦ rw (row_at-change (is_other id user_id) mark_deleted (λ d. refl) j t, n) refl
    | inr (x, e) ↦
        let (_, q) = row_at-Has j t e in
        rw (row_at-change (is_other id user_id) mark_deleted (λ d. refl) j t, e) (ground (arith, q))
  ]

  pub terminate_others-respond :
      (id : String) (user_id : ℕ) (t : List Device)
      → IsUnique t
      → Refines (terminate_others id user_id) t (call device (terminate_others id user_id) t)
  unfolding delete_all_other_by_device_id_and_user_id
  terminate_others-respond id user_id t u =
      let run : call device (terminate_others id user_id) t
          ≡ (ok true, change (is_other id user_id) mark_deleted t) =
        ground (arith, run_update_many_lem device (is_other id user_id) mark_deleted t) in
      subst (Refines (terminate_others id user_id) t) (sym run) (
        change-IsUnique (is_other id user_id) mark_deleted (λ d. refl) t u,
        ap (λ f. (ok true, f)) (fun_ext (others-view id user_id t)),
      )
