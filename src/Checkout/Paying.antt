-- ===== src/Checkout/Paying.antt =====
-- The ledger from the first session for a subscription to the completed checkout of it.
use photer_api.Base.{
  ℕ, ◌*◌, ◌<◌, ◌≡◌, inl, inr, refl, sym, ap, ◌∙◌, String, true, false, none, some, ◌∷◌, arith, ok,
  Delegate, All, Has, Has-change_hit, any-none, ◌===◌, truthy, Option-cases, Bool-cases,
}
use photer_api.Base.Prisma.Calls.{run_create_fresh, find_first_only, find_first_miss}
use photer_api.Payments.{
  SubscriptionEntity, active, PaymentEntity, Ledger, same_entity, same_payment, has_gateway_id,
  is_pending_payment_of,
}
use photer_api.Payments.Text.{decimal, parse_int}
use photer_api.Payments.Text.Roundtrip.{parse_int-decimal}
use photer_api.Payments.Stripe.{
  CreateSessionInputDto, StripeClient, CheckoutSession, StripeSubscription, period_end, is_text,
  handle_payment_success,
}
use photer_api.Payments.Commands.{
  new_entity, new_payment, pending_entity, open_payment, session_url, handle_payment,
}
use photer_api.Payments.Opening.{told}
use photer_api.Payments.Webhook.{handle_payment_success_activates}

-- The row of a subscription of the gateway, active to a date, with its name at Stripe.
abbrev pub IsPaid : (gateway_id : String) → ℕ → (external_id : String) → SubscriptionEntity → Type 0
IsPaid gateway_id date external_id e =
    (e.gateway_subscription_id ≡ gateway_id)
    × (e.status ≡ active)
    × (e.current_period_end ≡ some date)
    × (e.external_subscription_id ≡ some external_id)

pub decimal-truthy : (n : ℕ) → truthy (decimal n) ≡ true
unfolding parse_int
decimal-truthy n = elim (Bool-cases (decimal n === "")) [
  | inr h ↦ ground arith
  | inl h ↦
      let empty : decimal n ≡ "" = ground arith in
      let same : some n ≡ none = sym (parse_int-decimal n) ∙ ap parse_int empty in cc
]

module _ (stripe : StripeClient) (subscription_repo : Delegate SubscriptionEntity same_entity)
    (payment_repo : Delegate PaymentEntity same_payment)
    (update_date : SubscriptionEntity → SubscriptionEntity → (now : ℕ) → ℕ) where
  -- The first session for a subscription of the gateway adds its row and a payment.
  pub handle_payment_opens :
      (dto : CreateSessionInputDto) (uuid payment_uuid : String) (now : ℕ → ℕ) (s : Ledger)
      → All (λ e. has_gateway_id dto.subscription_id e ≡ false) s.subscriptions
      → All (λ e. (uuid === e.id) ≡ false) s.subscriptions
      → All (λ p. (payment_uuid === p.id) ≡ false) s.payments
      → handle_payment stripe subscription_repo payment_repo update_date dto uuid payment_uuid now s
        ≡ (
          told (session_url stripe subscription_repo payment_repo update_date dto),
          record s {
            subscriptions = new_entity dto uuid (now 0) ∷ s.subscriptions;
            payments = new_payment dto uuid payment_uuid (now 2) ∷ s.payments;
          },
        )
  unfolding handle_payment open_payment pending_entity
  handle_payment_opens dto uuid payment_uuid now s first fresh fresh' =
      let miss =
        find_first_miss subscription_repo (has_gateway_id dto.subscription_id) s.subscriptions
          first in
      let entity = new_entity dto uuid (now 0) in
      let added =
        run_create_fresh subscription_repo entity s.subscriptions
          (any-none (same_entity entity) s.subscriptions fresh) in
      let payment = new_payment dto uuid payment_uuid (now 2) in
      let paid =
        run_create_fresh payment_repo payment s.payments
          (any-none (same_payment payment) s.payments fresh') in
      ground (arith, miss, added, paid)

  module _ (dto : CreateSessionInputDto) (uuid payment_uuid : String) (now later : ℕ → ℕ)
      (s : Ledger) (session : CheckoutSession) where
    abbrev entity : SubscriptionEntity
    entity = new_entity dto uuid (now 0)

    abbrev waiting : Ledger
    waiting = record s {
      subscriptions = entity ∷ s.subscriptions;
      payments = new_payment dto uuid payment_uuid (now 2) ∷ s.payments;
    }

    abbrev paid_entity : StripeSubscription → ℕ → SubscriptionEntity
    paid_entity from_stripe end = record entity {
      status = active;
      external_subscription_id = some from_stripe.id;
      current_period_end = some (end * 1000);
    }

    abbrev paid : StripeSubscription → ℕ → SubscriptionEntity
    paid from_stripe end = record (paid_entity from_stripe end) {
      updated_at = update_date entity (paid_entity from_stripe end) (later 0);
    }

    -- The payment that was opened is found, and the checkout settles it.
    pub handle_payment_success-opened :
        {from_stripe : StripeSubscription} {end : ℕ}
        → All (λ e. has_gateway_id dto.subscription_id e ≡ false) s.subscriptions
        → session.metadata_subscription_id ≡ some dto.subscription_id
        → truthy dto.subscription_id ≡ true
        → is_text session.metadata_user_id ≡ true
        → stripe.subscriptions_retrieve session.subscription ≡ ok from_stripe
        → period_end stripe from_stripe ≡ ok (some end)
        → 0 < end
        → let (a, s') =
            handle_payment_success stripe subscription_repo payment_repo update_date session later
              waiting in
          (a ≡ ok tt)
          × (s'.events
              ≡ record {
                subscription_id = parse_int dto.subscription_id;
                end_date = end * 1000;
                external_id = from_stripe.id;
              }
                ∷ s.events)
          × ((e : SubscriptionEntity) × Has e s'.subscriptions
              × IsPaid dto.subscription_id (end * 1000) from_stripe.id e)
    handle_payment_success-opened {from_stripe} {end} first named id_text user_text retrieved ends
          positive =
        let mine : has_gateway_id dto.subscription_id entity ≡ true = ground arith in
        let found =
          find_first_only subscription_repo (has_gateway_id dto.subscription_id) s.subscriptions
            entity mine first in
        elim (Option-cases (
          payment_repo.find_latest (λ p. p.created_at) (is_pending_payment_of entity.id)
            waiting.payments)) [
              | inl n ↦
                  let waits : is_pending_payment_of entity.id
                        (new_payment dto uuid payment_uuid (now 2))
                      ≡ true =
                    ground arith in
                  let (missed, _) =
                    payment_repo.find_latest-none (λ p. p.created_at)
                      (is_pending_payment_of entity.id) waiting.payments n in
                  cc
              | inr (p, q) ↦
                  rw
                    (handle_payment_success_activates stripe subscription_repo payment_repo
                      update_date session dto.subscription_id later waiting named id_text user_text
                      retrieved found ends positive q)
                    (
                      refl,
                      refl,
                      (
                        paid from_stripe end,
                        Has-change_hit (λ x. x.id === entity.id)
                            (λ x. record (paid_entity from_stripe end) {
                              updated_at = update_date x (paid_entity from_stripe end) (later 0);
                            })
                            waiting.subscriptions (inl refl) (ground arith),
                        (refl, refl, refl, refl),
                      ),
                    )
            ]
