-- ===== src/Subscription/Examples.antt =====
-- The subscription use cases for one user.
use photer_api.Base.{
  ℕ, ◌+◌, ◌≡◌, ◌⊎◌, refl, String, true, false, Option, none, some, [], ◌∷◌, ok, throws, Exception,
  Delegate, Sequence, Has, change, even_calendar,
}
use photer_api.Base.Prisma.Memory.{list_delegate, list_sequence}
use photer_api.Notification.{success, conflict, internal_error}
use photer_api.User.Repository.{UserRow, personal, business, same_user, has_id}
use photer_api.Subscription.{
  Subscription, SubscriptionStatus, active, expired, stripe, monthly, same_subscription,
  has_subscription_id,
}
use photer_api.Subscription.Shop.{PaymentsClient, Shop, disable_auto_renewal}
use photer_api.Subscription.Create.{
  CreateSubscriptionCommand, is_url, session_of, create_subscription,
}
use photer_api.Subscription.Opening.{opened, create_subscription_adds_or_rolls_back}
use photer_api.Subscription.Renewal.{cancel_auto_renewal}
use photer_api.Subscription.Switching.{cancel_auto_renewal_follows_provider}
use photer_api.Subscription.Activate.{SubscriptionActivatedEvent, activate_subscription}
use photer_api.Subscription.Upgrading.{activate_subscription_upgrades}

abbrev subscriptions : Delegate Subscription same_subscription
subscriptions = list_delegate same_subscription

abbrev users : Delegate UserRow same_user
users = list_delegate same_user

abbrev ids : Sequence Subscription (λ r. r.id)
ids = list_sequence (λ r. r.id)

-- A service that opens sessions and changes renewals.
abbrev payments : PaymentsClient
payments = record { reply_session = λ q. ok (some "https://pay"); reply_renewal = λ q. ok true }

abbrev row : ℕ → SubscriptionStatus → Subscription
row id status = record {
  id = id;
  user_id = 7;
  status = status;
  account_type = business;
  valid_until = some 9000;
  auto_renewal = true;
  payment_provider = stripe;
  external_id = some "sub";
  created_at = 10;
  updated_at = 10;
}

abbrev owner : UserRow
owner = record {
  id = 7;
  username = "alice";
  password = none;
  email = "a@b.c";
  created_at = 10;
  is_deleted = false;
  updated_at = 10;
  account_type = personal;
  email_confirmation = none;
  password_recovery = none;
}

abbrev shop : Shop
shop = record {
  subscriptions = row 1 active ∷ row 2 expired ∷ [];
  users = owner ∷ [];
  requests = [];
}

abbrev command : CreateSubscriptionCommand
command = record {
  user_id = 7;
  subscription_period = monthly;
  payment_provider = stripe;
  base_url = "https://photer";
}

abbrev clock : ℕ → ℕ
clock i = i + 100

abbrev event : SubscriptionActivatedEvent
event = record { subscription_id = 2; end_date = 20000; external_id = "sub2" }

create_subscription_adds_or_rolls_back_example :
    let (a, s') = create_subscription subscriptions payments even_calendar ids command clock shop in
    (s'.users ≡ shop.users)
    × (((url : Option String) × (is_url url ≡ true)
          × (payments.reply_session (
                session_of subscriptions payments command
                  (opened subscriptions payments command even_calendar ids clock shop).id)
              ≡ ok url)
          × (a ≡ ok (success url))
          × (s'.subscriptions
              ≡ opened subscriptions payments command even_calendar ids clock shop
                ∷ shop.subscriptions))
        ⊎ (((a ≡ ok (conflict "User already has an active subscription"))
              ⊎ (a ≡ ok (internal_error "Failed to create payment session")))
            × ((url : Option String)
                → payments.reply_session (
                    session_of subscriptions payments command
                      (opened subscriptions payments command even_calendar ids clock shop).id)
                  ≡ ok url
                → is_url url ≡ false)
            × (s'.subscriptions ≡ shop.subscriptions)))
create_subscription_adds_or_rolls_back_example =
    create_subscription_adds_or_rolls_back subscriptions payments command even_calendar ids clock
      shop (refl, (refl, tt))

cancel_auto_renewal_follows_provider_example :
    let (a, s') = cancel_auto_renewal subscriptions payments 7 50 shop in
    let request = disable_auto_renewal 1 (some "sub") in
    (s'.requests ≡ request ∷ [])
    × (((payments.reply_renewal request ≡ ok true)
          × (a ≡ ok (success none))
          × (s'.subscriptions
              ≡ change
                  (has_subscription_id 1)
                  (λ x. record x { auto_renewal = false; updated_at = 50 })
                  shop.subscriptions))
        ⊎ ((payments.reply_renewal request ≡ ok false)
            × (a ≡ ok (conflict "Failed to disable auto-renewal in payment provider"))
            × (s'.subscriptions ≡ shop.subscriptions))
        ⊎ ((e : Exception) × (payments.reply_renewal request ≡ throws e)
            × (a ≡ throws e)
            × (s'.subscriptions ≡ shop.subscriptions)))
cancel_auto_renewal_follows_provider_example =
    cancel_auto_renewal_follows_provider subscriptions payments 7 shop refl refl 50

activate_subscription_upgrades_example :
    let (a, s') = activate_subscription subscriptions users payments event clock shop in
    (a ≡ ok tt)
    × Has
        (record (row 2 expired) {
          status = active;
          valid_until = some 20000;
          external_id = some "sub2";
          updated_at = 100;
        })
        s'.subscriptions
    × (s'.users
        ≡ change
            (has_id 7)
            (λ x. record x { account_type = business; updated_at = 103 })
            shop.users)
activate_subscription_upgrades_example =
    activate_subscription_upgrades subscriptions users payments event clock shop refl refl
