-- ===== src/Subscription/Renewal.antt =====
-- application/use-cases/commands/cancel-auto-renewal.usecase.ts and enable-auto-renewal.use-case.ts
-- of apps/gateway/src/features/subscription.
use photer_api.Base.{
  ℕ, Bool, true, false, not, none, some, Action, pure, ◌>>=◌, ◌>>◌, Delegate, if◌then◌else◌,
}
use photer_api.Notification.{Notification, success, not_found, conflict}
use photer_api.Subscription.{
  Subscription, same_subscription, find_active_by_user_id, update_subscription,
}
use photer_api.Subscription.Shop.{
  disable_auto_renewal, enable_auto_renewal, PaymentsClient, Shop, on_subscriptions, send_renewal,
}

abbrev pub set_auto_renewal : Bool → Subscription → Subscription
set_auto_renewal b s = record s { auto_renewal = b }

module _ (subscription : Delegate Subscription same_subscription) (client : PaymentsClient) where
  unfoldable pub cancel_auto_renewal : ℕ → (now : ℕ) → Action Shop (Notification (Unit {0}))
  cancel_auto_renewal user_id now s =
      elim (find_active_by_user_id subscription user_id s.subscriptions) [
        | none ↦ pure (not_found "Active subscription not found") s
        | some r ↦
            if not r.auto_renewal
            then pure (conflict "Auto-renewal already canceled") s
            else (send_renewal client (disable_auto_renewal r.id r.external_id)
                  >>= λ is_disabled s'.
                      if not is_disabled
                      then pure (conflict "Failed to disable auto-renewal in payment provider") s'
                      else (on_subscriptions
                              (update_subscription subscription r.id (set_auto_renewal false) now)
                            >> pure (success none))
                          s')
                s
      ]

  unfoldable pub enable_auto_renewal_of : ℕ → (now : ℕ) → Action Shop (Notification (Unit {0}))
  enable_auto_renewal_of user_id now s =
      elim (find_active_by_user_id subscription user_id s.subscriptions) [
        | none ↦ pure (not_found "Active subscription not found") s
        | some r ↦
            if r.auto_renewal
            then pure (conflict "Auto-renewal already enabled") s
            else (send_renewal client (enable_auto_renewal r.id r.external_id) >>= λ is_enabled s'.
                  if not is_enabled
                  then pure (conflict "Failed to enable auto-renewal in payment provider") s'
                  else (on_subscriptions
                          (update_subscription subscription r.id (set_auto_renewal true) now)
                        >> pure (success none))
                      s')
                s
      ]
