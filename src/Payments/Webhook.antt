-- ===== src/Payments/Webhook.antt =====
-- What a completed checkout does to the subscriptions, the payments and the gateway.
use photer_api.Base.{
  ℕ, ◌*◌, ◌<◌, ◌≡◌, refl, String, true, false, some, List, [], ◌∷◌, arith, ok, Delegate, All, Has,
  change, ◌===◌, truthy, pure, catching,
}
use photer_api.Base.Prisma.Calls.{find_first_hit, find_latest_miss}
use photer_api.Payments.{
  SubscriptionEntity, active, PaymentEntity, succeeded, Ledger, same_entity, same_payment,
  has_gateway_id, is_payment_of, is_pending_payment_of, save_entity, save_payment,
}
use photer_api.Payments.Text.{parse_int}
use photer_api.Payments.Stripe.{
  StripeClient, CheckoutSession, StripeSubscription, period_end, external_payment, is_text,
  has_payments, settle_payment, send_activation_event, record_payment, payment_success,
  handle_payment_success,
}

module _ (subscription_repo : Delegate SubscriptionEntity same_entity)
    (update_date : SubscriptionEntity → SubscriptionEntity → (now : ℕ) → ℕ) where
  pub save_entity_hit :
      (e : SubscriptionEntity) (now : ℕ) (t : List SubscriptionEntity) (r : SubscriptionEntity)
      → Has r t
      → (r.id === e.id) ≡ true
      → (x : SubscriptionEntity) × (save_entity subscription_repo update_date e now t ≡ (
        ok (record e { updated_at = update_date x e now }),
        change (λ x. x.id === e.id) (λ x. record e { updated_at = update_date x e now }) t,
      ))
  unfolding save_entity
  save_entity_hit e now t r k h =
      let f = λ (x : SubscriptionEntity). record e { updated_at = update_date x e now } in
      let (x, q, k', b) = find_first_hit subscription_repo (λ x. x.id === e.id) t k h in
      (x, rw (subscription_repo.update_lem (λ x. x.id === e.id) f t, q, save_entity))

module _ (payment_repo : Delegate PaymentEntity same_payment) where
  pub save_payment_hit :
      (p : PaymentEntity) (now : ℕ) (t : List PaymentEntity) (r : PaymentEntity)
      → Has r t
      → (r.id === p.id) ≡ true
      → save_payment payment_repo p now t ≡ (ok p, change (λ x. x.id === p.id) (λ _. p) t)
  unfolding save_payment
  save_payment_hit p now t r k h =
      let (x, q, k', b) = find_first_hit payment_repo (λ x. x.id === p.id) t k h in
      rw (payment_repo.update_lem (λ x. x.id === p.id) (λ _. p) t, q, save_payment)

  pub has_payments_hit :
      (stripe : StripeClient) (subscription_repo : Delegate SubscriptionEntity same_entity)
      (update_date : SubscriptionEntity → SubscriptionEntity → (now : ℕ) → ℕ) (id : String)
      (s : Ledger) (p : PaymentEntity)
      → Has p s.payments
      → is_payment_of id p ≡ true
      → has_payments stripe subscription_repo payment_repo update_date id s ≡ true
  has_payments_hit stripe subscription_repo update_date id s p k h =
      nonempty _ (payment_repo.find_many-complete (is_payment_of id) s.payments p k h)
    where
      nonempty : (t : List PaymentEntity) → Has p t → (elim t [ [] ↦ false | x ∷ xs ↦ true ]) ≡ true
      nonempty [] h = absurd h
      nonempty (x ∷ xs) h = refl

module _ (stripe : StripeClient) (subscription_repo : Delegate SubscriptionEntity same_entity)
    (payment_repo : Delegate PaymentEntity same_payment)
    (update_date : SubscriptionEntity → SubscriptionEntity → (now : ℕ) → ℕ)
    (session : CheckoutSession) (id : String) (now : ℕ → ℕ) (s : Ledger)
    {from_stripe : StripeSubscription} {entity : SubscriptionEntity} {end : ℕ}
    (named : session.metadata_subscription_id ≡ some id) (id_text : truthy id ≡ true)
    (user_text : is_text session.metadata_user_id ≡ true)
    (retrieved : stripe.subscriptions_retrieve session.subscription ≡ ok from_stripe)
    (found : subscription_repo.find_first (has_gateway_id id) s.subscriptions ≡ some entity)
    (ends : period_end stripe from_stripe ≡ ok (some end)) (positive : 0 < end) where
  -- The subscription as it is written.
  abbrev paid : SubscriptionEntity
  paid = record entity {
    status = active;
    external_subscription_id = some from_stripe.id;
    current_period_end = some (end * 1000);
  }

  handle_lem :
      handle_payment_success stripe subscription_repo payment_repo update_date session now s
      ≡ catching
          (record_payment stripe subscription_repo payment_repo update_date session id from_stripe
            entity end now)
          (λ e. pure tt)
          s
  unfolding handle_payment_success payment_success
  handle_lem = ground (arith, named, id_text, user_text, retrieved, found, ends, positive)

  module _ {payment : PaymentEntity}
      (waits : payment_repo.find_latest
          (λ p. p.created_at)
          (is_pending_payment_of entity.id)
          s.payments
        ≡ some payment) where
    -- A completed checkout, for a subscription that is there and whose period has an end, with a
    -- payment that waits: the subscription is active to that end and has its name at the provider,
    -- the newest of the payments that wait has succeeded, and the gateway is told once.
    pub handle_payment_success_activates :
        handle_payment_success stripe subscription_repo payment_repo update_date session now s ≡ (
          ok tt,
          record {
            subscriptions =
                change
                  (λ x. x.id === entity.id)
                  (λ x. record paid { updated_at = update_date x paid (now 0) })
                  s.subscriptions;
            payments =
                change
                  (λ x. x.id === payment.id)
                  (λ _. record payment {
                    status = succeeded;
                    external_payment_id = some (external_payment session);
                  })
                  s.payments;
            events =
                record {
                  subscription_id = parse_int id;
                  end_date = end * 1000;
                  external_id = from_stripe.id;
                }
                ∷ s.events;
          },
        )
    unfolding record_payment settle_payment send_activation_event
    handle_payment_success_activates =
        let (h, k) =
          subscription_repo.find_first-some (has_gateway_id id) s.subscriptions entity found in
        let (x, saved) =
          save_entity_hit subscription_repo update_date paid (now 0) s.subscriptions entity h
            (ground arith) in
        let (hp, kp, newest) =
          payment_repo.find_latest-some (λ p. p.created_at) (is_pending_payment_of entity.id)
            s.payments payment waits in
        let some_payments =
          has_payments_hit payment_repo stripe subscription_repo update_date entity.id s payment hp
            (ground (arith, kp)) in
        let settled =
          save_payment_hit payment_repo
            (record payment {
              status = succeeded;
              external_payment_id = some (external_payment session);
            })
            (now 1) s.payments payment hp (ground arith) in
        rw handle_lem (ground (arith, saved, some_payments, waits, settled))

  -- The same checkout delivered again, when no payment of the subscription waits any more: the
  -- subscription is written again, the payments are as they were, and the gateway is not told, also
  -- where the first event was lost.
  pub handle_payment_success_again :
      (payment : PaymentEntity)
      → Has payment s.payments
      → is_payment_of entity.id payment ≡ true
      → All (λ p. is_pending_payment_of entity.id p ≡ false) s.payments
      → handle_payment_success stripe subscription_repo payment_repo update_date session now s ≡ (
        ok tt,
        record s {
          subscriptions =
              change
                (λ x. x.id === entity.id)
                (λ x. record paid { updated_at = update_date x paid (now 0) })
                s.subscriptions;
        },
      )
  unfolding record_payment settle_payment
  handle_payment_success_again payment k mine settled =
      let (h, g) =
        subscription_repo.find_first-some (has_gateway_id id) s.subscriptions entity found in
      let (x, saved) =
        save_entity_hit subscription_repo update_date paid (now 0) s.subscriptions entity h
          (ground arith) in
      let some_payments =
        has_payments_hit payment_repo stripe subscription_repo update_date entity.id s payment k
          mine in
      let none_waits =
        find_latest_miss payment_repo (λ p. p.created_at) (is_pending_payment_of entity.id)
          s.payments settled in
      rw handle_lem (ground (arith, saved, some_payments, none_waits))
