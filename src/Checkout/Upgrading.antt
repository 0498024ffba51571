-- ===== src/Checkout/Upgrading.antt =====
-- A subscription from its request at the gateway to the event of its completed checkout.
use photer_api.Base.{
  ℕ, ◌*◌, ◌<◌, ◌≡◌, ◌≢◌, inl, inr, sym, ap, ◌∙◌, String, true, false, Option, some, ◌∷◌, arith,
  Result, ok, throws, Delegate, Sequence, Calendar, All, All-map_of, Has, change, ◌===◌, truthy,
}
use photer_api.Base.Prisma.Calls.{find_first_only}
use photer_api.Notification.{Notification, success}
use photer_api.User.Repository.{UserRow, same_user, has_id, business}
use photer_api.Subscription.{
  Subscription, active, same_subscription, has_subscription_id, is_pending_sub,
}
use photer_api.Subscription.Shop.{PaymentsClient, Shop}
use photer_api.Subscription.Create.{CreateSubscriptionCommand, session_of, create_subscription}
use photer_api.Subscription.Opening.{opened, create_subscription_adds_or_rolls_back}
use photer_api.Subscription.Activate.{SubscriptionActivatedEvent}
use photer_api.Subscription.Upgrading.{activate_subscription_upgrades}
use photer_api.Payments.{
  SubscriptionEntity, PaymentEntity, ActivationEvent, Ledger, same_entity, same_payment,
  has_gateway_id,
}
use photer_api.Payments.Text.{decimal, parse_int}
use photer_api.Payments.Text.Roundtrip.{parse_int-decimal}
use photer_api.Payments.Stripe.{
  CreateSessionInputDto, StripeClient, CheckoutSession, StripeSubscription, period_end,
  handle_payment_success,
}
use photer_api.Payments.Commands.{session_url, handle_payment}
use photer_api.Payments.Opening.{told}
use photer_api.Checkout.{session_message, handle_subscription_activated}
use photer_api.Checkout.Paying.{
  IsPaid, decimal-truthy, handle_payment_opens, handle_payment_success-opened,
}

module _ (subscription : Delegate Subscription same_subscription)
    (user : Delegate UserRow same_user) (client : PaymentsClient) (calendar : Calendar)
    (ids : Sequence Subscription (λ r. r.id)) (command : CreateSubscriptionCommand)
    (stripe_client : StripeClient) (subscription_repo : Delegate SubscriptionEntity same_entity)
    (payment_repo : Delegate PaymentEntity same_payment)
    (update_date : SubscriptionEntity → SubscriptionEntity → (now : ℕ) → ℕ)
    (uuid payment_uuid : String) (asked opened_at paid_at told_at : ℕ → ℕ) (s : Shop) (l : Ledger)
    (session : CheckoutSession) where
  -- The subscription that the request adds, the message for it, and the ledger behind the message.
  abbrev pub row : Subscription
  row = opened subscription client command calendar ids asked s

  abbrev pub sent_message : CreateSessionInputDto
  sent_message = session_message (session_of subscription client command row.id)

  abbrev pub answered : Result (Option String) × Ledger
  answered =
      handle_payment stripe_client subscription_repo payment_repo update_date sent_message uuid
        payment_uuid opened_at l

  row_first :
      subscription.find_first (has_subscription_id row.id) (row ∷ s.subscriptions) ≡ some row
  row_first =
      find_first_only subscription (has_subscription_id row.id) s.subscriptions row (ground arith) (
        All-map_of (λ r. r.id ≢ row.id) (λ r. has_subscription_id row.id r ≡ false) s.subscriptions
          (λ r h. ground arith) (ids.next_id-fresh s.subscriptions))

  abbrev event_of : ℕ → String → ActivationEvent
  event_of date external_id = record {
    subscription_id = parse_int (decimal row.id);
    end_date = date;
    external_id = external_id;
  }

  -- The event arrives at a shop that holds the row.
  told_lem :
      (date : ℕ) (external_id : String) (t : Shop) {u : UserRow}
      → t.subscriptions ≡ row ∷ s.subscriptions
      → t.users ≡ s.users
      → user.find_first (has_id command.user_id) s.users ≡ some u
      → let (c, t') =
          handle_subscription_activated subscription user client
            (event_of date external_id)
            told_at
            t in
        (c ≡ ok tt)
        × Has
            (record row {
              status = active;
              valid_until = some date;
              external_id = some external_id;
              updated_at = told_at 0;
            })
            t'.subscriptions
        × (t'.users
            ≡ change
                (has_id command.user_id)
                (λ x. record x { account_type = business; updated_at = told_at 3 })
                s.users)
  unfolding handle_subscription_activated
  told_lem date external_id t rows same owner =
      let event : SubscriptionActivatedEvent = record {
        subscription_id = row.id;
        end_date = date;
        external_id = external_id;
      } in
      let found = ap (subscription.find_first (has_subscription_id row.id)) rows ∙ row_first in
      let there = ap (user.find_first (has_id command.user_id)) same ∙ owner in
      let (c, h, users) =
        activate_subscription_upgrades subscription user client event told_at t found there in
      rw (parse_int-decimal row.id) (
        c,
        h,
        users
            ∙ ap
                (change (has_id command.user_id)
                  (λ x. record x { account_type = business; updated_at = told_at 3 }))
                same,
      )

  abbrev answer_of : Result (Option String) → Result (Notification String)
  answer_of (ok url) = ok (success url)
  answer_of (throws e) = throws e

  -- A subscription from end to end, for a user with none that waits, where the payments service has
  -- no row for the new key, fresh keys are given to its rows, the gateway's call returns what the
  -- service answers to the message, Stripe opens the session, and Stripe hands the keys of the message
  -- back with a subscription whose period has an end. The user is answered the address of the session.
  -- When Stripe reports the checkout, the service has the subscription active to the end of the
  -- period, and emits one event; the event makes the same subscription active at the gateway, to the
  -- same date and with the same name at Stripe, and the account of the user a business account.
  pub checkout_upgrades :
      {url : String} {from_stripe : StripeSubscription} {end : ℕ} {u : UserRow}
      → All (λ r. is_pending_sub command.user_id r ≡ false) s.subscriptions
      → user.find_first (has_id command.user_id) s.users ≡ some u
      → All (λ e. has_gateway_id sent_message.subscription_id e ≡ false) l.subscriptions
      → All (λ e. (uuid === e.id) ≡ false) l.subscriptions
      → All (λ p. (payment_uuid === p.id) ≡ false) l.payments
      → client.reply_session (session_of subscription client command row.id) ≡ answered.0
      → session_url stripe_client subscription_repo payment_repo update_date sent_message
        ≡ ok (some url)
      → truthy url ≡ true
      → session.metadata_subscription_id ≡ some sent_message.subscription_id
      → session.metadata_user_id ≡ some sent_message.user_id
      → stripe_client.subscriptions_retrieve session.subscription ≡ ok from_stripe
      → period_end stripe_client from_stripe ≡ ok (some end)
      → 0 < end
      → let (a, s') = create_subscription subscription client calendar ids command asked s in
        let (b, l') =
          handle_payment_success stripe_client subscription_repo payment_repo update_date session
            paid_at answered.1 in
        (a ≡ ok (success (some url)))
        × (b ≡ ok tt)
        × ((e : SubscriptionEntity) × Has e l'.subscriptions
            × IsPaid sent_message.subscription_id (end * 1000) from_stripe.id e)
        × ((event : ActivationEvent) × (l'.events ≡ event ∷ l.events)
            × (let (c, s'') =
                  handle_subscription_activated subscription user client event told_at s' in
                (c ≡ ok tt)
                × Has
                    (record row {
                      status = active;
                      valid_until = some (end * 1000);
                      external_id = some from_stripe.id;
                      updated_at = told_at 0;
                    })
                    s''.subscriptions
                × (s''.users
                    ≡ change
                        (has_id command.user_id)
                        (λ x. record x { account_type = business; updated_at = told_at 3 })
                        s.users)))
  unfolding session_message
  checkout_upgrades {url} {from_stripe} {end} none_pending owner first fresh fresh' agreed opens
        url_text named user_named retrieved ends positive =
      let run =
        handle_payment_opens stripe_client subscription_repo payment_repo update_date sent_message
          uuid payment_uuid opened_at l first fresh fresh' in
      let replied : client.reply_session (session_of subscription client command row.id)
          ≡ ok (some url) =
        agreed ∙ ap (λ z. z.0) run ∙ ap told opens in
      let (same, added) =
        create_subscription_adds_or_rolls_back subscription client command calendar ids asked s
          none_pending in
      let (done, events, e) =
        handle_payment_success-opened stripe_client subscription_repo payment_repo update_date
          sent_message uuid payment_uuid opened_at paid_at l session first named
          (decimal-truthy row.id) (ground (arith, user_named, decimal-truthy command.user_id))
          retrieved ends positive in
      elim added [
        | inr (_, refused, _) ↦ let no = refused (some url) replied in cc
        | inl (url', _, reply, a, rows) ↦
            let sent = ap answer_of (sym reply ∙ replied) in
            rw (ap (λ z. z.1) run) (
              a ∙ sent,
              done,
              e,
              (
                event_of (end * 1000) from_stripe.id,
                events,
                told_lem (end * 1000) from_stripe.id
                    (create_subscription subscription client calendar ids command asked s).1 rows
                    same owner,
              ),
            )
      ]
