-- ===== src/Subscription/Upgrading.antt =====
-- What the event of an activated subscription brings about.
use photer_api.Base.{
  ℕ, ◌≡◌, ◌≢◌, ◌⊎◌, inl, inr, refl, sym, subst, false, Option, none, some, arith, ok, Delegate, Has,
  Has-change_hit, Has-change, change, Option-cases,
}
use photer_api.Base.Prisma.Calls.{run_update_hit, run_update_miss}
use photer_api.User.Repository.{UserRow, same_user, has_id, business, update_user_account_type}
use photer_api.Subscription.{
  Subscription, active, same_subscription, has_subscription_id, is_renewing_before,
  find_last_active_before, update_subscription,
}
use photer_api.Subscription.Shop.{PaymentsClient, Shop}
use photer_api.Subscription.Activate.{
  SubscriptionActivatedEvent, activated, disable_previous, activate_subscription,
}

module _ (subscription : Delegate Subscription same_subscription)
    (user : Delegate UserRow same_user) (client : PaymentsClient) where
  -- Step 3 never throws. It leaves the rows, or turns the renewal of the previous one off.
  disable_previous-some :
      (p : Subscription) (now : ℕ) (s : Shop)
      → let (a, s') = disable_previous subscription user client (some p) now s in
        (a ≡ ok tt)
        × (s'.users ≡ s.users)
        × ((s'.subscriptions ≡ s.subscriptions)
            ⊎ (s'.subscriptions
                ≡ change
                    (has_subscription_id p.id)
                    (λ x. record x { auto_renewal = false; updated_at = now })
                    s.subscriptions))
  unfolding disable_previous update_subscription
  disable_previous-some p now s =
      elim (Option-cases (subscription.find_first (has_subscription_id p.id) s.subscriptions)) [
        | inl q ↦
            let done =
              run_update_miss subscription (has_subscription_id p.id)
                (λ x. record x { auto_renewal = false; updated_at = now }) s.subscriptions q in
            ground (arith, done)
        | inr (x, q) ↦
            let done =
              run_update_hit subscription (has_subscription_id p.id)
                (λ x. record x { auto_renewal = false; updated_at = now }) s.subscriptions q in
            ground (arith, done)
      ]

  -- A row with another key stays in the table.
  disable_previous_keeps :
      (prev : Option Subscription) (now : ℕ) (s : Shop) (r : Subscription)
      → ((p : Subscription) → prev ≡ some p → p.id ≢ r.id)
      → Has r s.subscriptions
      → let (a, s') = disable_previous subscription user client prev now s in
        (a ≡ ok tt) × (s'.users ≡ s.users) × Has r s'.subscriptions
  unfolding disable_previous
  disable_previous_keeps none now s r other h = (refl, refl, h)
  disable_previous_keeps (some p) now s r other h =
      let (a, u, c) = disable_previous-some p now s in
      let kept =
        Has-change (has_subscription_id p.id)
          (λ x. record x { auto_renewal = false; updated_at = now }) s.subscriptions h
          (ground (arith, other p refl)) in
      (a, u, elim c [ inl e ↦ subst (Has r) (sym e) h | inr e ↦ subst (Has r) (sym e) kept ])

  module _ (event : SubscriptionActivatedEvent) (now : ℕ → ℕ) (s : Shop) {r : Subscription}
      {u : UserRow}
      (found : subscription.find_first (has_subscription_id event.subscription_id) s.subscriptions
        ≡ some r)
      (owner : user.find_first (has_id r.user_id) s.users ≡ some u) where
    abbrev current : Subscription
    current = record (activated event r) { updated_at = now 0 }

    abbrev first : Shop
    first = record s {
      subscriptions =
          change (has_subscription_id event.subscription_id)
            (λ x. record (activated event x) { updated_at = now 0 }) s.subscriptions;
    }

    abbrev previous : Option Subscription
    previous =
        find_last_active_before subscription current.user_id current.id (now 1) first.subscriptions

    previous_other : (p : Subscription) → previous ≡ some p → p.id ≢ current.id
    unfolding find_last_active_before
    previous_other p e = ground (
      arith,
      subscription.find_latest-some (λ x. x.updated_at)
          (is_renewing_before current.user_id current.id (now 1)) first.subscriptions p e,
    )

    -- The event of a subscription that is there, with its user, is handled to the end, whatever the
    -- payments service answers about the previous subscription: the subscription is active until
    -- the given date and has its name at the provider, and the account of the user is a business
    -- account.
    pub activate_subscription_upgrades :
        let (a, s') = activate_subscription subscription user client event now s in
        (a ≡ ok tt)
        × Has
            (record r {
              status = active;
              valid_until = some event.end_date;
              external_id = some event.external_id;
              updated_at = now 0;
            })
            s'.subscriptions
        × (s'.users
            ≡ change
                (has_id r.user_id)
                (λ x. record x { account_type = business; updated_at = now 3 })
                s.users)
    unfolding activate_subscription update_subscription update_user_account_type
    activate_subscription_upgrades =
        let done =
          run_update_hit subscription (has_subscription_id event.subscription_id)
            (λ x. record (activated event x) { updated_at = now 0 }) s.subscriptions found in
        let (h, k) =
          subscription.find_first-some (has_subscription_id event.subscription_id) s.subscriptions r
            found in
        let here : Has current first.subscriptions =
          Has-change_hit (has_subscription_id event.subscription_id)
            (λ x. record (activated event x) { updated_at = now 0 }) s.subscriptions h k in
        let (b, v, kept) =
          disable_previous_keeps previous (now 2) first current previous_other here in
        let upgraded =
          run_update_hit user (has_id r.user_id)
            (λ x. record x { account_type = business; updated_at = now 3 }) s.users owner in
        let run : activate_subscription subscription user client event now s ≡ (
          ok tt,
          record (disable_previous subscription user client previous (now 2) first).1 {
            users =
                change (has_id r.user_id)
                  (λ x. record x { account_type = business; updated_at = now 3 }) s.users;
          },
        ) =
          ground (arith, done, b, v, upgraded) in
        rw run (refl, kept, refl)
