-- ===== src/Payments/Commands.antt =====
-- application/use-cases/commands of apps/payments/src: a session for a payment, and the two switches
-- of the auto-renewal. The controller runs them for the messages of the gateway.
use Prim.Native.String.{◌++◌}
use photer_api.Base.{
  ℕ, String, Bool, true, false, Option, none, some, Action, Result, ok, throws, message, rejection,
  pure, catching, settle, ◌>>=◌, ◌>>◌, Delegate, run_create, run_update_many, if◌then◌else◌,
}
use photer_api.Subscription.{stripe, paypal}
use photer_api.Payments.{
  SubscriptionEntity, EntityStatus, pending, active, PaymentEntity, pending_payment, Ledger,
  same_entity, same_payment, has_gateway_id, has_both_ids, on_entities, on_payments, save_entity,
}
use photer_api.Payments.Text.{decimal}
use photer_api.Payments.Stripe.{
  CreateSessionInputDto, StripeClient, create_subscription_session, stripe_enable_auto_renewal,
  stripe_disable_auto_renewal,
}

-- `{ gatewaySubscriptionId, externalSubscriptionId }`
pub record AutoRenewalInputDto : Type 0 where
  pub gateway_subscription_id : ℕ
  pub external_subscription_id : String

abbrev pub new_entity : CreateSessionInputDto → (id : String) (now : ℕ) → SubscriptionEntity
new_entity dto id now = record {
  id = id;
  gateway_subscription_id = dto.subscription_id;
  user_id = dto.user_id;
  status = pending;
  current_period_end = none;
  auto_renewal = true;
  payment_provider = dto.payment_provider;
  external_subscription_id = none;
  subscription_period = dto.subscription_period;
  created_at = now;
  updated_at = now;
}

abbrev pub new_payment :
    CreateSessionInputDto → (subscription id : String) (now : ℕ) → PaymentEntity
new_payment dto subscription id now = record {
  id = id;
  amount = dto.amount;
  currency = dto.currency;
  status = pending_payment;
  payment_provider = dto.payment_provider;
  external_payment_id = none;
  subscription = subscription;
  created_at = now;
}

module _ (client : StripeClient) (subscription_repo : Delegate SubscriptionEntity same_entity) where
  module _ (payment_repo : Delegate PaymentEntity same_payment)
      (update_date : SubscriptionEntity → SubscriptionEntity → (now : ℕ) → ℕ) where
    -- The subscription that waits for the payment: the one that is pending, or a new one.
    unfoldable pub pending_entity :
        CreateSessionInputDto
        → Option SubscriptionEntity
        → (uuid : String) (now : ℕ → ℕ) → Action Ledger SubscriptionEntity
    pending_entity dto none uuid now =
        on_entities (run_create subscription_repo (new_entity dto uuid (now 0)))
    pending_entity dto (some existing) uuid now = elim existing.status [
      | pending ↦ on_entities (
          save_entity subscription_repo update_date (record existing { updated_at = now 0 })
            (now 1))
      | _ ↦ on_entities (run_create subscription_repo (new_entity dto uuid (now 0)))
    ]

    unfoldable pub session_url : CreateSessionInputDto → Result (Option String)
    session_url dto = elim dto.payment_provider [
      | stripe ↦ create_subscription_session client dto
      | paypal ↦ ok (some (dto.base_url ++ "/paypal-redirect"))
    ]

    abbrev is_active_entity : EntityStatus → Bool
    is_active_entity active = true
    is_active_entity _ = false

    -- The body of the `try`.
    unfoldable pub open_payment :
        CreateSessionInputDto
        → Option SubscriptionEntity
        → (uuid payment_uuid : String) (now : ℕ → ℕ) → Action Ledger (Option String)
    open_payment dto existing uuid payment_uuid now = do
      subscription ← pending_entity dto existing uuid now
      on_payments (run_create payment_repo (new_payment dto subscription.id payment_uuid (now 2)))
      settle (session_url dto)

    -- `HandlePaymentUseCase`; the `RpcException` carries the message of what was thrown, with parts
    -- of the request.
    unfoldable pub handle_payment :
        CreateSessionInputDto
        → (uuid payment_uuid : String) (now : ℕ → ℕ) → Action Ledger (Option String)
    handle_payment dto uuid payment_uuid now s =
        let existing =
          subscription_repo.find_first (has_gateway_id dto.subscription_id) s.subscriptions in
        let opened =
          catching (open_payment dto existing uuid payment_uuid now)
            (λ e s'. (throws (rejection (message e)), s')) in
        elim existing [
          | none ↦ opened s
          | some e ↦ if is_active_entity e.status then pure none s else opened s
        ]

  -- `subscriptionRepo.update(criteria, { autoRenewal })`
  unfoldable pub set_entity_renewal : Bool → AutoRenewalInputDto → (now : ℕ) → Action Ledger ℕ
  set_entity_renewal renews dto now = on_entities (
      run_update_many subscription_repo
        (has_both_ids (decimal dto.gateway_subscription_id) dto.external_subscription_id)
        (λ e. record e { auto_renewal = renews; updated_at = now }))

  unfoldable pub enable_auto_renewal_at_provider :
      AutoRenewalInputDto → (now : ℕ) → Action Ledger Bool
  enable_auto_renewal_at_provider dto now =
      if stripe_enable_auto_renewal client dto.external_subscription_id
      then (set_entity_renewal true dto now >> pure true)
      else pure false

  unfoldable pub disable_auto_renewal_at_provider :
      AutoRenewalInputDto → (now : ℕ) → Action Ledger Bool
  disable_auto_renewal_at_provider dto now =
      if stripe_disable_auto_renewal client dto.external_subscription_id
      then (set_entity_renewal false dto now >> pure true)
      else pure false
