-- ===== src/Payments.antt =====
-- apps/payments/src: the service that holds the subscriptions and payments at the provider. This file
-- has its entities and its two TypeORM repositories; Payments/Stripe.antt the Stripe service,
-- Payments/Commands.antt the use cases, Payments/Text.antt the conversions of numbers and texts.
pub mod Text
pub mod Queries
pub mod Api
pub mod Stripe
pub mod Commands
pub mod Webhook
pub mod Opening
pub mod Examples
use photer_api.Base.{
  ℕ, ◌≡◌, String, Bool, true, false, ◌&&◌, Option, none, some, List, ltb, ◌==◌, ◌===◌, Action,
  Result, ok, throws, Delegate, run_create, run_update_many, if◌then◌else◌,
}
use photer_api.Subscription.{PaymentProvider, SubscriptionPeriod}

-- The column `status` of subscriptions, and the one of payments.
pub data EntityStatus : Type 0 where
  pending active canceled : EntityStatus

pub data PaymentStatus : Type 0 where
  pending_payment succeeded failed : PaymentStatus

pub record SubscriptionEntity : Type 0 where
  pub id : String
  pub gateway_subscription_id : String
  pub user_id : String
  pub status : EntityStatus
  pub current_period_end : Option ℕ
  pub auto_renewal : Bool
  pub payment_provider : PaymentProvider
  pub external_subscription_id : Option String
  pub subscription_period : SubscriptionPeriod
  pub created_at : ℕ
  pub updated_at : ℕ

-- `subscription` is the key of the subscription it belongs to.
pub record PaymentEntity : Type 0 where
  pub id : String
  pub amount : ℕ
  pub currency : String
  pub status : PaymentStatus
  pub payment_provider : PaymentProvider
  pub external_payment_id : Option String
  pub subscription : String
  pub created_at : ℕ

-- The event that is emitted to the gateway.
pub record ActivationEvent : Type 0 where
  pub subscription_id : Option ℕ
  pub end_date : ℕ
  pub external_id : String

pub record Ledger : Type 0 where
  pub subscriptions : List SubscriptionEntity
  pub payments : List PaymentEntity
  pub events : List ActivationEvent

abbrev pub same_entity : SubscriptionEntity → SubscriptionEntity → Bool
same_entity e f = e.id === f.id

abbrev pub same_payment : PaymentEntity → PaymentEntity → Bool
same_payment p q = p.id === q.id

abbrev pub has_gateway_id : String → SubscriptionEntity → Bool
has_gateway_id id e = e.gateway_subscription_id === id

abbrev pub is_external : Option String → String → Bool
is_external none id = false
is_external (some x) id = x === id

-- The criteria of `enableAutoRenewal` and `disableAutoRenewal`.
abbrev pub has_both_ids : (gateway_id external_id : String) → SubscriptionEntity → Bool
has_both_ids gateway_id external_id e =
    has_gateway_id gateway_id e && is_external e.external_subscription_id external_id

abbrev pub is_pending_payment_status : PaymentStatus → Bool
is_pending_payment_status pending_payment = true
is_pending_payment_status _ = false

abbrev pub is_payment_of : String → PaymentEntity → Bool
is_payment_of id p = p.subscription === id

abbrev pub is_pending_payment_of : String → PaymentEntity → Bool
is_pending_payment_of id p = is_payment_of id p && is_pending_payment_status p.status

abbrev pub on_entities : {A : Type 0} → Action (List SubscriptionEntity) A → Action Ledger A
on_entities m s = let (r, t) = m s.subscriptions in (r, record s { subscriptions = t })

abbrev pub on_payments : {A : Type 0} → Action (List PaymentEntity) A → Action Ledger A
on_payments m s = let (r, t) = m s.payments in (r, record s { payments = t })

-- `save` of an entity that was read: its columns are written over its row, and TypeORM dates the
-- update, from the row before, the entity and the clock; a row that is gone is inserted again.
module _ (repository : Delegate SubscriptionEntity same_entity)
    (update_date : SubscriptionEntity → SubscriptionEntity → (now : ℕ) → ℕ) where
  unfoldable pub save_entity :
      SubscriptionEntity → (now : ℕ) → Action (List SubscriptionEntity) SubscriptionEntity
  save_entity e now t =
      elim (repository.update (λ x. x.id === e.id)
        (λ x. record e { updated_at = update_date x e now }) t) [
          | none ↦ run_create repository (record e { created_at = now; updated_at = now }) t
          | some (r, t') ↦ (ok r, t')
        ]

module _ (repository : Delegate PaymentEntity same_payment) where
  unfoldable pub save_payment :
      PaymentEntity → (now : ℕ) → Action (List PaymentEntity) PaymentEntity
  save_payment p now t = elim (repository.update (λ x. x.id === p.id) (λ _. p) t) [
    | none ↦ run_create repository (record p { created_at = now }) t
    | some (r, t') ↦ (ok r, t')
  ]
