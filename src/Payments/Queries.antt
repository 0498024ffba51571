-- ===== src/Payments/Queries.antt =====
-- apps/payments/src: infrastructure/repositories/payments.query-repository.ts,
-- application/use-cases/queries/get-my-payments.use-case.ts and `getMyPayments` of
-- api/payments.controller.ts. A payment stands with its subscription, as the left join gives it.
use photer_api.Base.{ℕ, String, Bool, false, Option, none, some, List, map, ◌===◌, if◌then◌else◌}
use photer_api.Subscription.{PaymentProvider, SubscriptionPeriod}
use photer_api.Subscription.Queries.{PaymentsRequest}
use photer_api.Payments.{PaymentEntity, SubscriptionEntity}
use photer_api.Payments.Text.{decimal}
use photer_api.Query.{
  SortDirection, BaseQueryParams, BasePaginatedOutputDto, calculate_skip, map_to_output,
}
use photer_api.Query.Pager.{Pager}

pub record PaymentOutputDto : Type 0 where
  pub subscription_id : Option String
  pub user_id : Option String
  pub date_of_payment : ℕ
  pub end_date_of_subscription : Option ℕ
  pub price : ℕ
  pub subscription_type : Option SubscriptionPeriod
  pub payment_type : PaymentProvider

pub record PaymentRecord : Type 0 where
  pub payment : PaymentEntity
  pub subscription : Option SubscriptionEntity

-- The column of the order that holds a date in every row.
abbrev pub payment_column : String → Option (PaymentRecord → ℕ)
payment_column column =
    if column === "payment.createdAt" then some (λ r. r.payment.created_at) else none

-- `sortMapping[sortBy] || 'payment.createdAt'`
abbrev pub safe_sort_by : String → String
safe_sort_by sort_by =
    if sort_by === "dateOfPayment"
    then "payment.createdAt"
    else if sort_by === "endDateOfSubscription"
    then "subscription.currentPeriodEnd"
    else "payment.createdAt"

-- `subscription.userId = :userId`
abbrev pub is_payment_of_user : String → PaymentRecord → Bool
is_payment_of_user user_id r = elim r.subscription [ none ↦ false | some s ↦ s.user_id === user_id ]

abbrev of_subscription {ℓ} :
    {A : Type ℓ} → (SubscriptionEntity → A) → Option SubscriptionEntity → Option A
of_subscription f none = none
of_subscription f (some s) = some (f s)

abbrev end_date_of : Option SubscriptionEntity → Option ℕ
end_date_of none = none
end_date_of (some s) = s.current_period_end

-- The function that the use case maps over the payments.
abbrev pub payment_output : PaymentRecord → PaymentOutputDto
payment_output r = record {
  subscription_id = of_subscription (λ s. s.id) r.subscription;
  user_id = of_subscription (λ s. s.user_id) r.subscription;
  date_of_payment = r.payment.created_at;
  end_date_of_subscription = end_date_of r.subscription;
  price = r.payment.amount;
  subscription_type = of_subscription (λ s. s.subscription_period) r.subscription;
  payment_type = r.payment.payment_provider;
}

module _ (payment : Pager PaymentRecord payment_column) where
  -- The payments of a page, and the number of all that fit.
  unfoldable pub get_user_payments :
      String
      → (skip size : ℕ) → String
      → SortDirection
      → List PaymentRecord
      → List PaymentRecord × ℕ
  get_user_payments user_id skip size sort_by sort_direction t = (
    payment.find_page (is_payment_of_user user_id) (safe_sort_by sort_by) sort_direction skip size
        t,
    payment.count_rows (is_payment_of_user user_id) t,
  )

  unfoldable pub execute_get_my_payments :
      String → BaseQueryParams → List PaymentRecord → BasePaginatedOutputDto PaymentOutputDto
  unfolding get_user_payments
  execute_get_my_payments user_id q t =
      let (items, total_count) =
        get_user_payments user_id (calculate_skip q) q.page_size q.sort_by q.sort_direction t in
      map_to_output (map payment_output items) q.page_number q.page_size total_count

  -- `getMyPayments` of the controller: it takes the number of the user for a text.
  unfoldable pub on_get_my_payments :
      PaymentsRequest → List PaymentRecord → BasePaginatedOutputDto PaymentOutputDto
  unfolding execute_get_my_payments
  on_get_my_payments payload t =
      execute_get_my_payments (decimal payload.user_id) payload.query_params t
