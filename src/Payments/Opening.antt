-- ===== src/Payments/Opening.antt =====
-- What the messages of the gateway do to the ledger of the payments service.
use photer_api.Base.{
  ℕ, ◌≡◌, ◌≢◌, ◌⊎◌, String, true, false, Option, some, ◌∷◌, arith, Result, ok, throws, rejection,
  message, Delegate, All, any-none, change, ◌===◌,
}
use photer_api.Base.Prisma.Calls.{run_create_fresh, run_update_many_lem}
use photer_api.Payments.{
  SubscriptionEntity, pending, PaymentEntity, Ledger, same_entity, same_payment, has_gateway_id,
  has_both_ids,
}
use photer_api.Payments.Text.{decimal}
use photer_api.Payments.Stripe.{CreateSessionInputDto, StripeClient, stripe_disable_auto_renewal}
use photer_api.Payments.Commands.{
  AutoRenewalInputDto, new_payment, pending_entity, session_url, open_payment, handle_payment,
  set_entity_renewal, disable_auto_renewal_at_provider,
}
use photer_api.Payments.Webhook.{save_entity_hit}

-- What the caller is told of a session.
abbrev pub told : Result (Option String) → Result (Option String)
told (ok url) = ok url
told (throws e) = throws (rejection (message e))

module _ (stripe : StripeClient) (subscription_repo : Delegate SubscriptionEntity same_entity) where
  -- A session for a subscription of the gateway that waits for its payment reuses its row and adds
  -- one payment that waits; the provider's address or its failure is the answer, and the rows stay
  -- also where the provider fails.
  pub handle_payment_reuses :
      (payment_repo : Delegate PaymentEntity same_payment)
      (update_date : SubscriptionEntity → SubscriptionEntity → (now : ℕ) → ℕ)
      (dto : CreateSessionInputDto) (uuid payment_uuid : String) (now : ℕ → ℕ) (s : Ledger)
      {e : SubscriptionEntity}
      → subscription_repo.find_first (has_gateway_id dto.subscription_id) s.subscriptions ≡ some e
      → e.status ≡ pending
      → All (λ p. (payment_uuid === p.id) ≡ false) s.payments
      → let (a, s') =
          handle_payment stripe subscription_repo payment_repo update_date dto uuid payment_uuid now
            s in
        (a ≡ told (session_url stripe subscription_repo payment_repo update_date dto))
        × (s'.payments ≡ new_payment dto e.id payment_uuid (now 2) ∷ s.payments)
        × (s'.subscriptions
            ≡ change
                (λ x. x.id === e.id)
                (λ x. record e {
                  updated_at = update_date x (record e { updated_at = now 0 }) (now 1);
                })
                s.subscriptions)
        × (s'.events ≡ s.events)
  unfolding handle_payment open_payment pending_entity
  handle_payment_reuses payment_repo update_date dto uuid payment_uuid now s {e} found waits fresh =
      let (h, g) =
        subscription_repo.find_first-some (has_gateway_id dto.subscription_id) s.subscriptions e
          found in
      let (x, saved) =
        save_entity_hit subscription_repo update_date (record e { updated_at = now 0 }) (now 1)
          s.subscriptions e h (ground arith) in
      let added =
        run_create_fresh payment_repo (new_payment dto e.id payment_uuid (now 2)) s.payments
          (any-none (same_payment (new_payment dto e.id payment_uuid (now 2))) s.payments fresh) in
      ground (arith, found, waits, saved, added)

  -- The renewal is off in the ledger, for every row with the two names, exactly when Stripe has set
  -- it so; otherwise the answer is no and the ledger has not changed.
  pub disable_auto_renewal_at_provider_cases :
      (dto : AutoRenewalInputDto) (now : ℕ) (s : Ledger)
      → let (a, s') = disable_auto_renewal_at_provider stripe subscription_repo dto now s in
        let answer = stripe.subscriptions_update dto.external_subscription_id true in
        ((answer ≡ ok true)
          × (a ≡ ok true)
          × (s' ≡ record s {
            subscriptions =
                change
                  (has_both_ids (decimal dto.gateway_subscription_id) dto.external_subscription_id)
                  (λ e. record e { auto_renewal = false; updated_at = now })
                  s.subscriptions;
          }))
        ⊎ ((answer ≢ ok true) × (a ≡ ok false) × (s' ≡ s))
  unfolding disable_auto_renewal_at_provider set_entity_renewal stripe_disable_auto_renewal
  disable_auto_renewal_at_provider_cases dto now s = ground (
    arith,
    run_update_many_lem subscription_repo
        (has_both_ids (decimal dto.gateway_subscription_id) dto.external_subscription_id)
        (λ e. record e { auto_renewal = false; updated_at = now }) s.subscriptions,
  )
