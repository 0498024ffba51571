-- ===== src/Subscription/Switching.antt =====
-- The auto-renewal of a subscription is what the payment provider has agreed to.
use photer_api.Base.{
  ℕ, ◌≡◌, ◌⊎◌, inl, inr, refl, true, false, none, some, ◌∷◌, arith, ok, throws, Exception,
  Result-cases, Delegate, change,
}
use photer_api.Base.Prisma.Calls.{find_first_hit, run_update_hit}
use photer_api.Notification.{success, conflict}
use photer_api.Subscription.{
  Subscription, same_subscription, is_active_sub, has_subscription_id, find_active_by_user_id,
  update_subscription,
}
use photer_api.Subscription.Shop.{PaymentsClient, Shop, disable_auto_renewal}
use photer_api.Subscription.Renewal.{set_auto_renewal, cancel_auto_renewal}

module _ (subscription : Delegate Subscription same_subscription) (client : PaymentsClient)
    (user_id : ℕ) (s : Shop) {r : Subscription}
    (found : subscription.find_first (is_active_sub user_id) s.subscriptions ≡ some r)
    (renews : r.auto_renewal ≡ true) where
  abbrev off : ℕ → Subscription → Subscription
  off now x = record (set_auto_renewal false x) { updated_at = now }

  -- The active subscription of a user, which renews, is asked to be disabled at the provider, once.
  -- Its auto-renewal is off afterwards exactly when the provider agrees; when it refuses or the
  -- call fails, the answer or the exception says so and no subscription has changed.
  pub cancel_auto_renewal_follows_provider :
      (now : ℕ)
      → let (a, s') = cancel_auto_renewal subscription client user_id now s in
        let request = disable_auto_renewal r.id r.external_id in
        (s'.requests ≡ request ∷ s.requests)
        × (((client.reply_renewal request ≡ ok true)
              × (a ≡ ok (success none))
              × (s'.subscriptions
                  ≡ change
                      (has_subscription_id r.id)
                      (λ x. record x { auto_renewal = false; updated_at = now })
                      s.subscriptions))
            ⊎ ((client.reply_renewal request ≡ ok false)
                × (a ≡ ok (conflict "Failed to disable auto-renewal in payment provider"))
                × (s'.subscriptions ≡ s.subscriptions))
            ⊎ ((e : Exception) × (client.reply_renewal request ≡ throws e)
                × (a ≡ throws e)
                × (s'.subscriptions ≡ s.subscriptions)))
  unfolding cancel_auto_renewal find_active_by_user_id update_subscription
  cancel_auto_renewal_follows_provider now =
      let (x, q, k, b) =
        find_first_hit subscription (has_subscription_id r.id) s.subscriptions
          (subscription.find_first-some _ s.subscriptions r found).0 (ground arith) in
      let done =
        run_update_hit subscription (has_subscription_id r.id) (off now) s.subscriptions q in
      elim (Result-cases (client.reply_renewal (disable_auto_renewal r.id r.external_id))) [
        | inl (b', p) ↦ ground (arith, done, found, renews, p)
        | inr (e, p) ↦
            let run : cancel_auto_renewal subscription client user_id now s ≡ (
              throws e,
              record s { requests = disable_auto_renewal r.id r.external_id ∷ s.requests },
            ) =
              ground (arith, found, renews, p) in
            rw run (refl, inr (inr (e, p, refl, refl)))
      ]
