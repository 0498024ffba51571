-- ===== src/Checkout.antt =====
-- The gateway and the payments service on the two ends of their queue: the message `create_payment_session`
-- of apps/gateway/src/features/subscription, and the event `subscription_activated` of apps/payments/src.
pub mod Paying
pub mod Upgrading
mod Examples
use photer_api.Base.{ℕ, Option, none, some, Action, throw, rejection, Delegate}
use photer_api.User.Repository.{UserRow, same_user}
use photer_api.Subscription.{Subscription, same_subscription}
use photer_api.Subscription.Shop.{SessionRequest, PaymentsClient, Shop}
use photer_api.Subscription.Activate.{activate_subscription}
use photer_api.Payments.{ActivationEvent}
use photer_api.Payments.Text.{decimal}
use photer_api.Payments.Stripe.{CreateSessionInputDto}

-- Keys are texts in the message.
unfoldable pub session_message : SessionRequest → CreateSessionInputDto
session_message q = record {
  user_id = decimal q.user_id;
  amount = q.amount;
  currency = "usd";
  payment_provider = q.payment_provider;
  base_url = q.base_url;
  subscription_period = q.subscription_period;
  subscription_id = decimal q.subscription_id;
}

module _ (subscription : Delegate Subscription same_subscription)
    (user : Delegate UserRow same_user) (client : PaymentsClient) where
  -- A key that is not a number finds no row.
  unfoldable pub handle_subscription_activated :
      ActivationEvent → (now : ℕ → ℕ) → Action Shop (Unit {0})
  handle_subscription_activated event now s = elim event.subscription_id [
    | none ↦ throw (rejection "Invalid subscription id") s
    | some id ↦
        activate_subscription subscription user client
          (record {
            subscription_id = id;
            end_date = event.end_date;
            external_id = event.external_id;
          })
          now s
  ]
