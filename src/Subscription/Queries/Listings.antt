-- ===== src/Subscription/Queries/Listings.antt =====
-- What a user sees of subscriptions and payments.
use photer_api.Base.{ℕ, ◌≤◌, ◌≡◌, ◌↔◌, refl, true, some, List, map, arith, ok, Has, count}
use photer_api.Notification.{success}
use photer_api.Subscription.{Subscription, is_sub_of}
use photer_api.Query.{BaseQueryParams, BasePaginatedOutputDto, calculate_skip, map_to_output}
use photer_api.Query.Pager.{Pager}
use photer_api.Query.Listing.{items_to, items_to-all}
use photer_api.Payments.{SubscriptionEntity}
use photer_api.Payments.Text.{decimal}
use photer_api.Payments.Text.Roundtrip.{decimal_injective}
use photer_api.Payments.Queries.{
  PaymentRecord, PaymentOutputDto, payment_column, payment_output, safe_sort_by, is_payment_of_user,
  get_user_payments, execute_get_my_payments, on_get_my_payments,
}
use photer_api.Subscription.Queries.{
  GetUserSubscriptionsQuery, SubscriptionOutputDto, subscription_column, subscription_output,
  get_user_subscriptions, get_my_subscriptions, get_my_payments,
}

-- For a page size that is not 0: the pages that the answer counts hold, one after the other, every
-- subscription of the user and nothing else, in the order of the query and once; the total is their
-- number. Each item has the date of the last change as the date of its creation.
get_my_subscriptions_pages :
    (subscription : Pager Subscription subscription_column) (q : GetUserSubscriptionsQuery)
    (t : List Subscription)
    → 1 ≤ q.page_size
    → let rows = subscription.sorted (is_sub_of q.user_id) q.sort_by q.sort_direction t in
      let answer : ℕ → BasePaginatedOutputDto SubscriptionOutputDto =
        λ n. get_my_subscriptions subscription (record q { page_number = n }) t in
      (items_to answer (get_my_subscriptions subscription q t).pages_count
        ≡ map subscription_output rows)
      × ((s : Subscription) → Has s rows ↔ (Has s t × (is_sub_of q.user_id s ≡ true)))
      × ((get_my_subscriptions subscription q t).total_count ≡ count (is_sub_of q.user_id) t)
      × ((s : Subscription) → (subscription_output s).created_at ≡ s.updated_at)
unfolding get_my_subscriptions get_user_subscriptions map_to_output
get_my_subscriptions_pages subscription q t h = (
  items_to-all subscription (is_sub_of q.user_id) q.sort_by q.sort_direction q.page_size
      (subscription.count_rows (is_sub_of q.user_id) t) subscription_output t h
      (omega (arith, subscription.count_rows_lem (is_sub_of q.user_id) t)),
  (λ s. subscription.sorted-Has (is_sub_of q.user_id) q.sort_by q.sort_direction t s),
  subscription.count_rows_lem (is_sub_of q.user_id) t,
  λ s. refl,
)

-- The payments of a user, asked for at the gateway, which asks the payments service, with a page size
-- that is not 0: the answer to each page number is a success with the page that the service reads.
-- The pages that the answer counts, put together, are the sorted list of the query; a payment of the
-- table is in that list exactly if its subscription is one of the user, and none of a subscription
-- that another user's number is written in is there.
pub get_my_payments_pages :
    (payment : Pager PaymentRecord payment_column) (user_id : ℕ) (q : BaseQueryParams)
    (t : List PaymentRecord)
    → 1 ≤ q.page_size
    → let rows =
        payment.sorted
          (is_payment_of_user (decimal user_id))
          (safe_sort_by q.sort_by)
          q.sort_direction
          t in
      let answer : ℕ → BasePaginatedOutputDto PaymentOutputDto = λ n.
        on_get_my_payments payment
          (record { user_id = user_id; query_params = record q { page_number = n } })
          t in
      ((n : ℕ)
        → get_my_payments
            (λ request. ok (on_get_my_payments payment request t))
            user_id
            (record q { page_number = n })
          ≡ success (some (answer n)))
      × (items_to answer (answer q.page_number).pages_count ≡ map payment_output rows)
      × ((r : PaymentRecord)
          → Has r rows ↔ (Has r t × (is_payment_of_user (decimal user_id) r ≡ true)))
      × ((r : PaymentRecord) (s : SubscriptionEntity) (owner : ℕ)
          → Has r rows
          → r.subscription ≡ some s
          → s.user_id ≡ decimal owner
          → owner ≡ user_id)
unfolding get_my_payments on_get_my_payments execute_get_my_payments get_user_payments map_to_output
    calculate_skip
get_my_payments_pages payment user_id q t h =
    let mine = is_payment_of_user (decimal user_id) in
    (
      (λ n. refl),
      items_to-all payment mine (safe_sort_by q.sort_by) q.sort_direction q.page_size
          (payment.count_rows mine t) payment_output t h
          (omega (arith, payment.count_rows_lem mine t)),
      (λ r. payment.sorted-Has mine (safe_sort_by q.sort_by) q.sort_direction t r),
      λ r s owner k e f.
          let (_, b) =
            (payment.sorted-Has mine (safe_sort_by q.sort_by) q.sort_direction t r).0 k in
          let same : decimal owner ≡ decimal user_id = ground (arith, b, e, f) in
          decimal_injective owner user_id same,
    )
