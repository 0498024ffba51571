-- ===== src/Payments/Stripe.antt =====
-- application/services/stripe.service.ts and payments.service.ts of apps/payments/src. Stripe's client
-- is a parameter.
use Prim.Native.String.{◌++◌}
use photer_api.Base.{
  ℕ, ◌*◌, String, Bool, true, false, not, ◌||◌, Option, none, some, [], ◌∷◌, ◌==◌, Action, Result,
  ok, throws, error, message, pure, throw, catching, ◌>>=◌, ◌>>◌, Delegate, truthy, if◌then◌else◌,
}
use photer_api.Subscription.{SubscriptionPeriod, monthly, weekly, daily, PaymentProvider}
use photer_api.Payments.{
  SubscriptionEntity, active, PaymentEntity, succeeded, Ledger, same_entity, same_payment,
  has_gateway_id, is_payment_of, is_pending_payment_of, on_entities, on_payments, save_entity,
  save_payment,
}
use photer_api.Payments.Text.{parse_int}

pub record CreateSessionInputDto : Type 0 where
  pub user_id : String
  pub amount : ℕ
  pub currency : String
  pub payment_provider : PaymentProvider
  pub base_url : String
  pub subscription_period : SubscriptionPeriod
  pub subscription_id : String

-- What `checkout.sessions.create` is given, less its constant fields.
pub record CheckoutParams : Type 0 where
  pub currency : String
  pub product_name : String
  pub unit_amount : ℕ
  pub interval : String
  pub success_url : String
  pub cancel_url : String
  pub user_id : String
  pub subscription_id : String

-- `Stripe.Checkout.Session`, the fields that are read.
pub record CheckoutSession : Type 0 where
  pub id : String
  pub subscription : String
  pub payment_intent : Option String
  pub metadata_subscription_id : Option String
  pub metadata_user_id : Option String

pub record StripeSubscription : Type 0 where
  pub id : String
  pub current_period_end : Option ℕ
  pub latest_invoice : Option String

pub data StripeEvent : Type 0 where
  checkout_session_completed : CheckoutSession → StripeEvent
  invoice_payment_failed : StripeEvent
  customer_subscription_deleted : StripeEvent
  other_event : StripeEvent

-- The calls of Stripe's client; an invoice is read for the end of the period of its first line, an
-- update of a subscription for `cancel_at_period_end`.
pub record StripeClient : Type 0 where
  pub checkout_sessions_create : CheckoutParams → Result (Option String)
  pub construct_event : (payload signature secret : String) → Result StripeEvent
  pub subscriptions_retrieve : String → Result StripeSubscription
  pub invoices_retrieve : String → Result (Option ℕ)
  pub subscriptions_update : String → (cancel_at_period_end : Bool) → Result Bool

unfoldable pub get_interval : SubscriptionPeriod → String
get_interval daily = "day"
get_interval weekly = "week"
get_interval monthly = "month"

abbrev period_text : SubscriptionPeriod → String
period_text daily = "DAILY"
period_text weekly = "WEEKLY"
period_text monthly = "MONTHLY"

-- A missing number and 0 are falsy.
abbrev pub is_date : Option ℕ → Bool
is_date none = false
is_date (some n) = not (n == 0)

abbrev pub is_text : Option String → Bool
is_text none = false
is_text (some s) = truthy s

-- `payment_intent || session.id`
abbrev pub external_payment : CheckoutSession → String
external_payment session = elim session.payment_intent [
  | none ↦ session.id
  | some intent ↦ if truthy intent then intent else session.id
]

module _ (stripe : StripeClient) where
  unfoldable pub create_subscription_session : CreateSessionInputDto → Result (Option String)
  create_subscription_session dto = stripe.checkout_sessions_create (record {
    currency = dto.currency;
    product_name = "Business Subscription (" ++ (period_text dto.subscription_period ++ ")");
    unit_amount = dto.amount;
    interval = get_interval dto.subscription_period;
    success_url = dto.base_url ++ "/success?session_id={CHECKOUT_SESSION_ID}";
    cancel_url = dto.base_url ++ "/cancel";
    user_id = dto.user_id;
    subscription_id = dto.subscription_id;
  })

  -- The end of the period, with the latest invoice as the second source.
  unfoldable pub period_end : StripeSubscription → Result (Option ℕ)
  period_end s =
      if is_date s.current_period_end then ok s.current_period_end else elim s.latest_invoice [
        | none ↦ ok s.current_period_end
        | some invoice ↦
            if truthy invoice then stripe.invoices_retrieve invoice else ok s.current_period_end
      ]

  -- `result.cancel_at_period_end === cancel`; a failed call is `false`.
  abbrev renewal_set : Bool → Result Bool → Bool
  renewal_set cancel (throws e) = false
  renewal_set true (ok b) = b
  renewal_set false (ok b) = not b

  unfoldable pub stripe_enable_auto_renewal : String → Bool
  stripe_enable_auto_renewal id = renewal_set false (stripe.subscriptions_update id false)

  unfoldable pub stripe_disable_auto_renewal : String → Bool
  stripe_disable_auto_renewal id = renewal_set true (stripe.subscriptions_update id true)

  module _ (subscription_repo : Delegate SubscriptionEntity same_entity)
      (payment_repo : Delegate PaymentEntity same_payment)
      (update_date : SubscriptionEntity → SubscriptionEntity → (now : ℕ) → ℕ) where
    unfoldable pub send_activation_event : Option ℕ → ℕ → String → Action Ledger (Unit {0})
    send_activation_event subscription_id end_date external_id s = (
      ok tt,
      record s {
        events =
            record {
              subscription_id = subscription_id;
              end_date = end_date;
              external_id = external_id;
            }
            ∷ s.events;
      },
    )

    -- The newest pending payment of a subscription with payments; that there is none is a
    -- `TypeError`.
    unfoldable pub settle_payment :
        CheckoutSession → (had_payments : Bool) → String → (now : ℕ) → Action Ledger (Unit {0})
    settle_payment session had_payments id now s =
        if had_payments
        then elim (payment_repo.find_latest (λ p. p.created_at) (is_pending_payment_of id)
            s.payments) [
              | none ↦ throw (error "Cannot set properties of null (setting 'status')") s
              | some payment ↦
                  (on_payments (
                        save_payment payment_repo
                          (record payment {
                            status = succeeded;
                            external_payment_id = some (external_payment session);
                          })
                          now)
                      >> pure tt)
                    s
            ]
        else pure tt s

    -- `subscription.payments?.length > 0`, of the payments that were read with the subscription.
    abbrev pub has_payments : String → Ledger → Bool
    has_payments id s = elim (payment_repo.find_many (is_payment_of id) s.payments) [
      | [] ↦ false
      | p ∷ ps ↦ true
    ]

    -- From the point where the subscription is found and the end of its period is a date.
    unfoldable pub record_payment :
        CheckoutSession
        → String
        → StripeSubscription
        → SubscriptionEntity
        → ℕ
        → (now : ℕ → ℕ) → Action Ledger (Unit {0})
    record_payment session subscription_id from_stripe entity end now s =
        let date = end * 1000 in
        (do
          saved ← on_entities (
              save_entity subscription_repo update_date
                (record entity {
                  status = active;
                  external_subscription_id = some from_stripe.id;
                  current_period_end = some date;
                })
                (now 0))
          settle_payment session (has_payments entity.id s) entity.id (now 1)
          send_activation_event (parse_int subscription_id) date from_stripe.id)
          s

    -- The body of the `try` of `handlePaymentSuccess`.
    unfoldable pub payment_success :
        CheckoutSession → String → (now : ℕ → ℕ) → Action Ledger (Unit {0})
    payment_success session subscription_id now s =
        elim (stripe.subscriptions_retrieve session.subscription) [
          | throws e ↦ throw e s
          | ok from_stripe ↦
              elim (subscription_repo.find_first (has_gateway_id subscription_id) s.subscriptions) [
                | none ↦ pure tt s
                | some entity ↦ elim (period_end from_stripe) [
                  | throws e ↦ throw e s
                  | ok none ↦ pure tt s
                  | ok (some end) ↦
                      if end == 0
                      then pure tt s
                      else record_payment session subscription_id from_stripe entity end now s
                ]
              ]
        ]

    unfoldable pub handle_payment_success :
        CheckoutSession → (now : ℕ → ℕ) → Action Ledger (Unit {0})
    handle_payment_success session now s = elim session.metadata_subscription_id [
      | none ↦ pure tt s
      | some id ↦
          if not (truthy id) || not (is_text session.metadata_user_id)
          then pure tt s
          else catching (payment_success session id now) (λ e. pure tt) s
    ]

    unfoldable pub process_stripe_event : StripeEvent → (now : ℕ → ℕ) → Action Ledger (Unit {0})
    process_stripe_event (checkout_session_completed session) now =
        handle_payment_success session now
    process_stripe_event invoice_payment_failed now = pure tt
    process_stripe_event customer_subscription_deleted now = pure tt
    process_stripe_event other_event now = pure tt

    -- A payload that is no buffer is the controller's error and does not arrive here.
    unfoldable pub handle_webhook_event :
        (secret : Option String) (payload signature : String) (now : ℕ → ℕ)
        → Action Ledger (Unit {0})
    handle_webhook_event none payload signature now =
        throw (error "STRIPE_WEBHOOK_SECRET is not set")
    handle_webhook_event (some secret) payload signature now =
        if truthy secret
        then elim (stripe.construct_event payload signature secret) [
          | throws e ↦ throw (error ("Webhook error: " ++ message e))
          | ok event ↦ process_stripe_event event now
        ]
        else throw (error "STRIPE_WEBHOOK_SECRET is not set")
