-- ===== src/Subscription/Opening.antt =====
-- What a request for a subscription leaves in the table.
use photer_api.Base.{
  ℕ, ◌≡◌, ◌≢◌, ◌⊎◌, inl, refl, String, true, false, Option, none, some, List, ◌∷◌, arith, ok,
  Delegate, Sequence, Calendar, All, All-map_of, any, any-none, discard-none,
}
use photer_api.Base.Prisma.Calls.{find_first_hit, find_first_miss, run_create_fresh, run_delete_hit}
use photer_api.Notification.{success, conflict, internal_error}
use photer_api.User.Repository.{business}
use photer_api.Subscription.{
  Subscription, pending, same_subscription, is_pending_sub, has_subscription_id, new_row,
  get_latest, find_pending_by_user_id, create_subscription_row, delete_subscription,
}
use photer_api.Subscription.Shop.{PaymentsClient, Shop}
use photer_api.Subscription.Create.{
  CreateSubscriptionCommand, start_date, calculate_valid_until, is_url, session_of, open_session,
  create_subscription,
}

module _ (subscription : Delegate Subscription same_subscription) (client : PaymentsClient)
    (command : CreateSubscriptionCommand) where
  -- A session for a new row, or neither.
  open_session_cases :
      (r : Subscription) (t : List Subscription) (s : Shop)
      → s.subscriptions ≡ r ∷ t
      → All (λ x. has_subscription_id r.id x ≡ false) t
      → let (a, s') = open_session subscription client command true r.id s in
        (s'.users ≡ s.users)
        × (((url : Option String) × (is_url url ≡ true)
              × (client.reply_session (session_of subscription client command r.id) ≡ ok url)
              × (a ≡ ok (success url))
              × (s'.subscriptions ≡ r ∷ t))
            ⊎ (((a ≡ ok (conflict "User already has an active subscription"))
                  ⊎ (a ≡ ok (internal_error "Failed to create payment session")))
                × ((url : Option String)
                    → client.reply_session (session_of subscription client command r.id) ≡ ok url
                    → is_url url ≡ false)
                × (s'.subscriptions ≡ t)))
  unfolding open_session delete_subscription
  open_session_cases r t s e fresh =
      let (x, q, k, b) =
        find_first_hit subscription (has_subscription_id r.id) (r ∷ t) (inl refl) (ground arith) in
      let gone = run_delete_hit subscription (has_subscription_id r.id) (r ∷ t) q in
      let rest = discard-none (has_subscription_id r.id) t fresh in ground (arith, gone, rest)

  module _ (calendar : Calendar) (ids : Sequence Subscription (λ r. r.id)) (now : ℕ → ℕ)
      (s : Shop) where
    -- The subscription that waits for its payment.
    abbrev pub opened : Subscription
    opened = new_row (ids.next_id s.subscriptions) (now 1) (record {
      user_id = command.user_id;
      status = pending;
      account_type = business;
      auto_renewal = true;
      payment_provider = command.payment_provider;
      valid_until = some (
          calculate_valid_until calendar
            (start_date (get_latest subscription command.user_id s.subscriptions) (now 0))
            command.subscription_period);
      external_id = none;
    })

    -- For a user with no pending subscription, one is added exactly when the payments service opens
    -- a session, whose address is the answer. When it does not, or the call of it fails, the answer
    -- says so and the table of subscriptions is the one before the request. No user changes.
    pub create_subscription_adds_or_rolls_back :
        All (λ r. is_pending_sub command.user_id r ≡ false) s.subscriptions
        → let (a, s') = create_subscription subscription client calendar ids command now s in
          (s'.users ≡ s.users)
          × (((url : Option String) × (is_url url ≡ true)
                × (client.reply_session (session_of subscription client command opened.id) ≡ ok url)
                × (a ≡ ok (success url))
                × (s'.subscriptions ≡ opened ∷ s.subscriptions))
              ⊎ (((a ≡ ok (conflict "User already has an active subscription"))
                    ⊎ (a ≡ ok (internal_error "Failed to create payment session")))
                  × ((url : Option String)
                      → client.reply_session (session_of subscription client command opened.id)
                        ≡ ok url
                      → is_url url ≡ false)
                  × (s'.subscriptions ≡ s.subscriptions)))
    unfolding create_subscription find_pending_by_user_id create_subscription_row
    create_subscription_adds_or_rolls_back none_pending =
        let fresh : All (λ r. has_subscription_id opened.id r ≡ false) s.subscriptions =
          All-map_of (λ r. r.id ≢ opened.id) (λ r. has_subscription_id opened.id r ≡ false)
            s.subscriptions (λ r h. ground arith) (ids.next_id-fresh s.subscriptions) in
        let unused : any (same_subscription opened) s.subscriptions ≡ false =
          any-none (same_subscription opened) s.subscriptions (
            All-map_of (λ r. r.id ≢ opened.id) (λ r. same_subscription opened r ≡ false)
              s.subscriptions (λ r h. ground arith) (ids.next_id-fresh s.subscriptions)) in
        let miss =
          find_first_miss subscription (is_pending_sub command.user_id) s.subscriptions
            none_pending in
        let added = run_create_fresh subscription opened s.subscriptions unused in
        let rest =
          open_session_cases opened s.subscriptions
            (record s { subscriptions = opened ∷ s.subscriptions }) refl fresh in
        let run : create_subscription subscription client calendar ids command now s
            ≡ open_session subscription client command true opened.id
                (record s { subscriptions = opened ∷ s.subscriptions }) =
          ground (arith, miss, added) in
        rw run rest
