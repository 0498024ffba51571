-- ===== src/Subscription/Create.antt =====
-- application/use-cases/commands/create-subscription.usecase.ts of
-- apps/gateway/src/features/subscription.
use photer_api.Base.{
  ℕ, String, Bool, true, false, Option, none, some, ltb, Action, pure, catching, ok, ◌>>=◌, ◌>>◌,
  Delegate, Sequence, Calendar, truthy, if◌then◌else◌,
}
use photer_api.Notification.{Notification, success, conflict, internal_error}
use photer_api.User.Repository.{business}
use photer_api.Subscription.{
  Subscription, SubscriptionPeriod, monthly, weekly, daily, PaymentProvider, pending,
  same_subscription, get_latest, find_pending_by_user_id, create_subscription_row,
  update_subscription, delete_subscription,
}
use photer_api.Subscription.Shop.{
  SessionRequest, PaymentsClient, Shop, on_subscriptions, send_session,
}

pub record CreateSubscriptionCommand : Type 0 where
  pub user_id : ℕ
  pub subscription_period : SubscriptionPeriod
  pub payment_provider : PaymentProvider
  pub base_url : String

unfoldable pub get_price_by_type : SubscriptionPeriod → ℕ
get_price_by_type monthly = 999
get_price_by_type weekly = 299
get_price_by_type daily = 99

unfoldable pub calculate_valid_until : Calendar → ℕ → SubscriptionPeriod → ℕ
calculate_valid_until calendar start_date daily = calendar.add_days start_date 1
calculate_valid_until calendar start_date weekly = calendar.add_days start_date 7
calculate_valid_until calendar start_date monthly = calendar.add_months start_date 1

-- `validUntil` of the last subscription where it is later than now.
unfoldable pub start_date : Option Subscription → (now : ℕ) → ℕ
start_date none now = now
start_date (some last) now = elim last.valid_until [
  | none ↦ now
  | some date ↦ if ltb now date then date else now
]

-- A missing or empty text is falsy.
abbrev pub is_url : Option String → Bool
is_url none = false
is_url (some url) = truthy url

module _ (subscription : Delegate Subscription same_subscription) where
  abbrev pub rollback : Bool → ℕ → Action Shop (Unit {0})
  rollback created_new id s =
      if created_new then on_subscriptions (delete_subscription subscription id) s else pure tt s

  module _ (client : PaymentsClient) where
    abbrev pub session_of : CreateSubscriptionCommand → ℕ → SessionRequest
    session_of command id = record {
      user_id = command.user_id;
      amount = get_price_by_type command.subscription_period;
      payment_provider = command.payment_provider;
      base_url = command.base_url;
      subscription_period = command.subscription_period;
      subscription_id = id;
    }

    -- The `try` of step 5, with what its `catch` does.
    unfoldable pub open_session :
        CreateSubscriptionCommand → (created_new : Bool) → ℕ → Action Shop (Notification String)
    open_session command created_new id =
        catching
          (send_session client (session_of command id) >>= λ url s.
            if is_url url
            then (ok (success url), s)
            else (rollback created_new id
                  >> pure (conflict "User already has an active subscription"))
                s)
          (λ e.
            catching (rollback created_new id) (λ _. pure tt)
            >> pure (internal_error "Failed to create payment session"))

    unfoldable pub create_subscription :
        Calendar
        → Sequence Subscription (λ s. s.id)
        → CreateSubscriptionCommand
        → (now : ℕ → ℕ) → Action Shop (Notification String)
    create_subscription calendar ids command now s =
        let last_subscription = get_latest subscription command.user_id s.subscriptions in
        elim (find_pending_by_user_id subscription command.user_id s.subscriptions) [
          | some p ↦
              (do
                on_subscriptions (update_subscription subscription p.id (λ r. r) (now 0))
                open_session command false p.id)
                s
          | none ↦
              (do
                created ← on_subscriptions (
                    create_subscription_row subscription ids
                      (record {
                        user_id = command.user_id;
                        status = pending;
                        account_type = business;
                        auto_renewal = true;
                        payment_provider = command.payment_provider;
                        valid_until = some (
                            calculate_valid_until calendar (start_date last_subscription (now 0))
                              command.subscription_period);
                        external_id = none;
                      })
                      (now 1))
                open_session command true created.id)
                s
        ]
