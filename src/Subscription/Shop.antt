-- ===== src/Subscription/Shop.antt =====
-- What the subscription use cases work on: the two tables of the gateway, and the requests that have
-- gone to the payments service over the message queue.
use photer_api.Base.{ℕ, String, Bool, Option, List, ◌∷◌, Action, Result}
use photer_api.User.Repository.{UserRow}
use photer_api.Subscription.{Subscription, SubscriptionPeriod, PaymentProvider}

-- `{ cmd: 'create_payment_session' }`, less the currency, which is always 'usd'; keys are numbers here
-- and texts in the message.
pub record SessionRequest : Type 0 where
  pub user_id : ℕ
  pub amount : ℕ
  pub payment_provider : PaymentProvider
  pub base_url : String
  pub subscription_period : SubscriptionPeriod
  pub subscription_id : ℕ

pub data Request : Type 0 where
  create_payment_session : SessionRequest → Request
  disable_auto_renewal : (gateway_id : ℕ) (external_id : Option String) → Request
  enable_auto_renewal : (gateway_id : ℕ) (external_id : Option String) → Request

-- What the service answers, or how the call fails.
pub record PaymentsClient : Type 0 where
  pub reply_session : SessionRequest → Result (Option String)
  pub reply_renewal : Request → Result Bool

pub record Shop : Type 0 where
  pub subscriptions : List Subscription
  pub users : List UserRow
  pub requests : List Request

abbrev pub on_subscriptions : {A : Type 0} → Action (List Subscription) A → Action Shop A
on_subscriptions m s = let (r, t) = m s.subscriptions in (r, record s { subscriptions = t })

abbrev pub on_shop_users : {A : Type 0} → Action (List UserRow) A → Action Shop A
on_shop_users m s = let (r, t) = m s.users in (r, record s { users = t })

-- `await lastValueFrom(this.paymentsClient.send(…))`
abbrev pub send_session : PaymentsClient → SessionRequest → Action Shop (Option String)
send_session client q s =
    (client.reply_session q, record s { requests = create_payment_session q ∷ s.requests })

abbrev pub send_renewal : PaymentsClient → Request → Action Shop Bool
send_renewal client q s = (client.reply_renewal q, record s { requests = q ∷ s.requests })
