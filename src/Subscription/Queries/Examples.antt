-- ===== src/Subscription/Queries/Examples.antt =====
-- Pages of a user's subscriptions and payments.
use photer_api.Base.{
  ℕ, ◌≡◌, ◌↔◌, refl, String, true, none, some, List, [], ◌∷◌, map, arith, ok, Has, text_discrete,
}
use photer_api.Notification.{success}
use photer_api.User.Repository.{business}
use photer_api.Subscription.{Subscription, active, stripe, monthly}
use photer_api.Payments.{SubscriptionEntity, active as active_entity, succeeded}
use photer_api.Payments.Text.{decimal}
use photer_api.Payments.Queries.{
  PaymentRecord, PaymentOutputDto, payment_column, payment_output, is_payment_of_user,
  on_get_my_payments,
}
use photer_api.Subscription.Queries.{
  GetUserSubscriptionsQuery, subscription_column, get_my_payments,
}
use photer_api.Subscription.Queries.Listings.{get_my_payments_pages}
use photer_api.Query.{BasePaginatedOutputDto, calculate_skip, map_to_output, default_query, desc}
use photer_api.Query.Pager.{Pager}
use photer_api.Query.Memory.{list_pager}
use photer_api.Query.Listing.{items_to}

abbrev subscriptions : Pager Subscription subscription_column
subscriptions = list_pager subscription_column

abbrev payments : Pager PaymentRecord payment_column
payments = list_pager payment_column

abbrev sub : ℕ → ℕ → Subscription
sub id user_id = record {
  id = id;
  user_id = user_id;
  status = active;
  account_type = business;
  valid_until = none;
  auto_renewal = true;
  payment_provider = stripe;
  external_id = none;
  created_at = id;
  updated_at = 50;
}

abbrev query : GetUserSubscriptionsQuery
query = record {
  user_id = 7;
  page_number = 1;
  page_size = 1;
  sort_by = "createdAt";
  sort_direction = desc;
}

abbrev entity : String → SubscriptionEntity
entity user_id = record {
  id = "s1";
  gateway_subscription_id = "12";
  user_id = user_id;
  status = active_entity;
  current_period_end = some 900;
  auto_renewal = true;
  payment_provider = stripe;
  external_subscription_id = none;
  subscription_period = monthly;
  created_at = 10;
  updated_at = 10;
}

abbrev paid : String → PaymentRecord
paid user_id = record {
  payment = record {
    id = "p1";
    amount = 1000;
    currency = "usd";
    status = succeeded;
    payment_provider = stripe;
    external_payment_id = none;
    subscription = "s1";
    created_at = 20;
  };
  subscription = some (entity user_id);
}

abbrev paid_rows : List PaymentRecord
paid_rows = paid "7" ∷ paid "8" ∷ []

first_payment :
    (on_get_my_payments payments
      (record { user_id = 7; query_params = default_query })
      paid_rows).items
    ≡ payment_output (paid "7") ∷ []
unfolding on_get_my_payments map_to_output calculate_skip text_discrete decimal
first_payment = refl

get_my_payments_pages_example :
    let rows =
      payments.sorted (is_payment_of_user (decimal 7)) "payment.createdAt" desc paid_rows in
    let answer : ℕ → BasePaginatedOutputDto PaymentOutputDto = λ n.
      on_get_my_payments payments
        (record { user_id = 7; query_params = record default_query { page_number = n } })
        paid_rows in
    ((n : ℕ)
      → get_my_payments
          (λ request. ok (on_get_my_payments payments request paid_rows))
          7
          (record default_query { page_number = n })
        ≡ success (some (answer n)))
    × (items_to answer (answer 1).pages_count ≡ map payment_output rows)
    × ((r : PaymentRecord)
        → Has r rows ↔ (Has r paid_rows × (is_payment_of_user (decimal 7) r ≡ true)))
    × ((r : PaymentRecord) (s : SubscriptionEntity) (owner : ℕ)
        → Has r rows
        → r.subscription ≡ some s
        → s.user_id ≡ decimal owner
        → owner ≡ 7)
unfolding text_discrete
get_my_payments_pages_example =
    get_my_payments_pages payments 7 default_query paid_rows (ground arith)
