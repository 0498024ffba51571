-- ===== src/Subscription/Activate.antt =====
-- application/use-cases/commands/activate-subscription.usecase.ts of
-- apps/gateway/src/features/subscription, which api/subscription.listener.ts runs on each event
-- `subscription_activated`.
use photer_api.Base.{
  ℕ, String, false, Option, none, some, Action, pure, catching, ◌>>=◌, ◌>>◌, Delegate, truthy,
  if◌then◌else◌,
}
use photer_api.User.Repository.{UserRow, same_user, business, update_user_account_type}
use photer_api.Subscription.{
  Subscription, active, same_subscription, find_last_active_before, update_subscription,
}
use photer_api.Subscription.Shop.{
  disable_auto_renewal, PaymentsClient, Shop, on_subscriptions, on_shop_users, send_renewal,
}
use photer_api.Subscription.Renewal.{set_auto_renewal}

-- `subscription_activated`
pub record SubscriptionActivatedEvent : Type 0 where
  pub subscription_id : ℕ
  pub end_date : ℕ
  pub external_id : String

abbrev pub activated : SubscriptionActivatedEvent → Subscription → Subscription
activated event s = record s {
  status = active;
  valid_until = some event.end_date;
  external_id = some event.external_id;
}

module _ (subscription : Delegate Subscription same_subscription)
    (user : Delegate UserRow same_user) (client : PaymentsClient) where
  -- Step 3, for a previous subscription with a name at the provider.
  abbrev disable_at_provider : Subscription → Option String → (now : ℕ) → Action Shop (Unit {0})
  disable_at_provider prev none now = pure tt
  disable_at_provider prev (some external_id) now =
      if truthy external_id
      then catching
          (send_renewal client (disable_auto_renewal prev.id (some external_id)) >>= λ ok' s.
            if ok'
            then (on_subscriptions
                    (update_subscription subscription prev.id (set_auto_renewal false) now)
                  >> pure tt)
                s
            else pure tt s)
          (λ e. pure tt)
      else pure tt

  unfoldable pub disable_previous : Option Subscription → (now : ℕ) → Action Shop (Unit {0})
  disable_previous none now = pure tt
  disable_previous (some prev) now = disable_at_provider prev prev.external_id now

  unfoldable pub activate_subscription :
      SubscriptionActivatedEvent → (now : ℕ → ℕ) → Action Shop (Unit {0})
  activate_subscription event now = do
    current ←
        on_subscriptions
          (update_subscription subscription event.subscription_id (activated event) (now 0))
    λ s.
        disable_previous
          (find_last_active_before subscription current.user_id current.id (now 1) s.subscriptions)
          (now 2) s
    on_shop_users (update_user_account_type user current.user_id business (now 3))
    pure tt
