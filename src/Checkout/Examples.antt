-- ===== src/Checkout/Examples.antt =====
-- A first subscription of one user, paid for at Stripe.
use photer_api.Base.{
  ℕ, ◌+◌, ◌*◌, ◌≡◌, refl, String, true, false, none, some, [], ◌∷◌, arith, ok, Delegate, Sequence,
  Has, change, text_discrete, even_calendar,
}
use photer_api.Base.Prisma.Memory.{list_delegate, list_sequence}
use photer_api.Notification.{success}
use photer_api.User.Repository.{UserRow, personal, business, same_user, has_id}
use photer_api.Subscription.{Subscription, active, same_subscription, stripe, monthly}
use photer_api.Subscription.Shop.{PaymentsClient, Shop}
use photer_api.Subscription.Create.{
  CreateSubscriptionCommand, create_subscription, get_price_by_type,
}
use photer_api.Payments.{
  SubscriptionEntity, PaymentEntity, ActivationEvent, Ledger, same_entity, same_payment,
}
use photer_api.Payments.Text.{decimal}
use photer_api.Payments.Stripe.{
  StripeClient, CheckoutSession, StripeSubscription, checkout_session_completed,
  handle_payment_success, CreateSessionInputDto, period_end, create_subscription_session,
}
use photer_api.Payments.Commands.{handle_payment, open_payment, pending_entity, session_url}
use photer_api.Checkout.{session_message, handle_subscription_activated}
use photer_api.Checkout.Paying.{IsPaid}
use photer_api.Checkout.Upgrading.{checkout_upgrades}

abbrev rows : Delegate Subscription same_subscription
rows = list_delegate same_subscription

abbrev users : Delegate UserRow same_user
users = list_delegate same_user

abbrev ids : Sequence Subscription (λ r. r.id)
ids = list_sequence (λ r. r.id)

abbrev entities : Delegate SubscriptionEntity same_entity
entities = list_delegate same_entity

abbrev payments : Delegate PaymentEntity same_payment
payments = list_delegate same_payment

abbrev dated : SubscriptionEntity → SubscriptionEntity → ℕ → ℕ
dated old new now = now

abbrev session_address : String
session_address = "https://photer/success?session_id={CHECKOUT_SESSION_ID}"

abbrev client : PaymentsClient
client = record { reply_session = λ q. ok (some session_address); reply_renewal = λ q. ok true }

abbrev session : CheckoutSession
session = record {
  id = "cs";
  subscription = "sub";
  payment_intent = some "pi";
  metadata_subscription_id = some "1";
  metadata_user_id = some "7";
}

abbrev at_stripe : StripeSubscription
at_stripe = record { id = "sub"; current_period_end = some 900; latest_invoice = none }

abbrev stripe_client : StripeClient
stripe_client = record {
  checkout_sessions_create = λ p. ok (some p.success_url);
  construct_event = λ payload signature secret. ok (checkout_session_completed session);
  subscriptions_retrieve = λ id. ok at_stripe;
  invoices_retrieve = λ id. ok none;
  subscriptions_update = λ id cancel. ok cancel;
}

abbrev alice : UserRow
alice = record {
  id = 7;
  username = "alice";
  password = none;
  email = "a@b.c";
  created_at = 10;
  is_deleted = false;
  updated_at = 10;
  account_type = personal;
  email_confirmation = none;
  password_recovery = none;
}

abbrev message : CreateSessionInputDto
message = session_message (record {
  user_id = 7;
  amount = 999;
  payment_provider = stripe;
  base_url = "https://photer";
  subscription_period = monthly;
  subscription_id = 1;
})

ends : period_end stripe_client at_stripe ≡ ok (some 900)
unfolding period_end
ends = refl

address : session_url stripe_client entities payments dated message ≡ ok (some session_address)
unfolding session_url create_subscription_session session_message
address = refl

abbrev shop : Shop
shop = record { subscriptions = []; users = alice ∷ []; requests = [] }

abbrev ledger : Ledger
ledger = record { subscriptions = []; payments = []; events = [] }

abbrev command : CreateSubscriptionCommand
command = record {
  user_id = 7;
  subscription_period = monthly;
  payment_provider = stripe;
  base_url = "https://photer";
}

abbrev clock : ℕ → ℕ
clock i = i + 100

-- The row of the subscription when all is done.
abbrev upgraded : Subscription
upgraded = record {
  id = 1;
  user_id = 7;
  status = active;
  account_type = business;
  valid_until = some (900 * 1000);
  auto_renewal = true;
  payment_provider = stripe;
  external_id = some "sub";
  created_at = 101;
  updated_at = 100;
}

checkout_upgrades_example :
    let (a, s') = create_subscription rows client even_calendar ids command clock shop in
    let waiting =
      (handle_payment stripe_client entities payments dated message "s1" "p1" clock ledger).1 in
    let (b, l') =
      handle_payment_success stripe_client entities payments dated session clock waiting in
    (a ≡ ok (success (some session_address)))
    × (b ≡ ok tt)
    × ((e : SubscriptionEntity) × Has e l'.subscriptions × IsPaid "1" (900 * 1000) "sub" e)
    × ((event : ActivationEvent) × (l'.events ≡ event ∷ [])
        × (let (c, s'') = handle_subscription_activated rows users client event clock s' in
            (c ≡ ok tt)
            × Has upgraded s''.subscriptions
            × (s''.users
                ≡ change
                    (has_id 7)
                    (λ x. record x { account_type = business; updated_at = 103 })
                    (alice ∷ []))))
unfolding session_message decimal text_discrete get_price_by_type handle_payment open_payment
    pending_entity session_url create_subscription_session
checkout_upgrades_example =
    checkout_upgrades rows users client even_calendar ids command stripe_client entities payments
      dated "s1" "p1" clock clock clock clock shop ledger session {end = 900} tt refl tt tt tt refl
      address refl refl refl refl ends (ground arith)
