-- ===== src/Payments/Examples.antt =====
-- The payments service with one subscription and one payment that waits.
use photer_api.Base.{
  ℕ, ◌+◌, ◌*◌, ◌≡◌, ◌≢◌, ◌⊎◌, inl, refl, true, false, none, some, [], ◌∷◌, arith, ok, Delegate,
  change, text_discrete, ◌===◌,
}
use photer_api.Base.Prisma.Memory.{list_delegate}
use photer_api.Subscription.{stripe, monthly}
use photer_api.Payments.{
  SubscriptionEntity, pending, active, PaymentEntity, PaymentStatus, succeeded, Ledger, same_entity,
  same_payment, has_both_ids,
}
use photer_api.Payments.Text.{parse_int, decimal}
use photer_api.Payments.Stripe.{
  StripeClient, CheckoutSession, StripeSubscription, CreateSessionInputDto,
  checkout_session_completed, period_end, handle_payment_success,
}
use photer_api.Payments.Commands.{
  AutoRenewalInputDto, new_payment, session_url, handle_payment, disable_auto_renewal_at_provider,
}
use photer_api.Payments.Webhook.{handle_payment_success_again}
use photer_api.Payments.Opening.{
  told, handle_payment_reuses, disable_auto_renewal_at_provider_cases,
}

abbrev subscriptions : Delegate SubscriptionEntity same_entity
subscriptions = list_delegate same_entity

abbrev payments : Delegate PaymentEntity same_payment
payments = list_delegate same_payment

abbrev dated : SubscriptionEntity → SubscriptionEntity → ℕ → ℕ
dated old new now = now

abbrev session : CheckoutSession
session = record {
  id = "cs";
  subscription = "sub";
  payment_intent = none;
  metadata_subscription_id = some "12";
  metadata_user_id = some "7";
}

abbrev at_stripe : StripeSubscription
at_stripe = record { id = "sub"; current_period_end = none; latest_invoice = some "inv" }

abbrev client : StripeClient
client = record {
  checkout_sessions_create = λ p. ok (some p.success_url);
  construct_event = λ payload signature secret. ok (checkout_session_completed session);
  subscriptions_retrieve = λ id. ok at_stripe;
  invoices_retrieve = λ id. ok (some 900);
  subscriptions_update = λ id cancel. ok cancel;
}

abbrev entity : SubscriptionEntity
entity = record {
  id = "s1";
  gateway_subscription_id = "12";
  user_id = "7";
  status = pending;
  current_period_end = none;
  auto_renewal = true;
  payment_provider = stripe;
  external_subscription_id = none;
  subscription_period = monthly;
  created_at = 10;
  updated_at = 10;
}

abbrev payment : PaymentStatus → PaymentEntity
payment status = record {
  id = "p1";
  amount = 999;
  currency = "usd";
  status = status;
  payment_provider = stripe;
  external_payment_id = none;
  subscription = "s1";
  created_at = 11;
}

abbrev ledger : PaymentStatus → Ledger
ledger status = record { subscriptions = entity ∷ []; payments = payment status ∷ []; events = [] }

abbrev clock : ℕ → ℕ
clock i = i + 100

abbrev dto : CreateSessionInputDto
dto = record {
  user_id = "7";
  amount = 999;
  currency = "usd";
  payment_provider = stripe;
  base_url = "https://photer";
  subscription_period = monthly;
  subscription_id = "12";
}

abbrev renewal : AutoRenewalInputDto
renewal = record { gateway_subscription_id = 12; external_subscription_id = "sub" }

-- The subscription that the checkout writes.
abbrev paid : SubscriptionEntity
paid = record entity {
  status = active;
  external_subscription_id = some "sub";
  current_period_end = some (900 * 1000);
}

period_end_example : period_end client at_stripe ≡ ok (some 900)
unfolding period_end text_discrete
period_end_example = refl

decimal_example : decimal 1203 ≡ "1203"
unfolding decimal
decimal_example = refl

parse_int_example : parse_int "120x" ≡ some 120
unfolding parse_int
parse_int_example = refl

handle_payment_success_again_example :
    handle_payment_success client subscriptions payments dated session clock (ledger succeeded) ≡ (
      ok tt,
      record (ledger succeeded) {
        subscriptions =
            change (λ x. x.id === "s1") (λ x. record paid { updated_at = 100 }) (entity ∷ []);
      },
    )
unfolding text_discrete
handle_payment_success_again_example =
    handle_payment_success_again client subscriptions payments dated session "12" clock
      (ledger succeeded) refl refl refl refl refl period_end_example (ground arith)
      (payment succeeded) (inl refl) refl (refl, tt)

handle_payment_reuses_example :
    let (a, s') =
      handle_payment client subscriptions payments dated dto "s2" "p2" clock (ledger succeeded) in
    (a ≡ told (session_url client subscriptions payments dated dto))
    × (s'.payments ≡ new_payment dto "s1" "p2" 102 ∷ payment succeeded ∷ [])
    × (s'.subscriptions
        ≡ change (λ x. x.id === "s1") (λ x. record entity { updated_at = 101 }) (entity ∷ []))
    × (s'.events ≡ [])
unfolding text_discrete
handle_payment_reuses_example =
    handle_payment_reuses client subscriptions payments dated dto "s2" "p2" clock (ledger succeeded)
      refl refl (refl, tt)

disable_auto_renewal_at_provider_cases_example :
    let (a, s') =
      disable_auto_renewal_at_provider client subscriptions renewal 50 (ledger succeeded) in
    ((client.subscriptions_update "sub" true ≡ ok true)
      × (a ≡ ok true)
      × (s' ≡ record (ledger succeeded) {
        subscriptions =
            change
              (has_both_ids (decimal 12) "sub")
              (λ e. record e { auto_renewal = false; updated_at = 50 })
              (entity ∷ []);
      }))
    ⊎ ((client.subscriptions_update "sub" true ≢ ok true)
        × (a ≡ ok false)
        × (s' ≡ ledger succeeded))
disable_auto_renewal_at_provider_cases_example =
    disable_auto_renewal_at_provider_cases client subscriptions renewal 50 (ledger succeeded)
