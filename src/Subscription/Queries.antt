-- ===== src/Subscription/Queries.antt =====
-- infrastructure/subscription.query-repository.ts and the queries of
-- apps/gateway/src/features/subscription/application/use-cases/queries. A page of payments comes from
-- the payments service: `remote` is what the call over the queue answers.
pub mod Listings
mod Examples
use photer_api.Base.{
  ℕ, ◌-◌, ◌*◌, String, Bool, Option, none, some, List, map, Result, ok, throws, ◌===◌, ◌==◌,
  if◌then◌else◌,
}
use photer_api.Notification.{Notification, success, internal_error}
use photer_api.User.Repository.{AccountType}
use photer_api.Subscription.{Subscription, SubscriptionStatus, PaymentProvider, is_sub_of}
use photer_api.Query.{SortDirection, BaseQueryParams, BasePaginatedOutputDto, map_to_output}
use photer_api.Query.Pager.{Pager}

pub record SubscriptionOutputDto : Type 0 where
  pub id : ℕ
  pub user_id : ℕ
  pub account_type : AccountType
  pub status : SubscriptionStatus
  pub valid_until : Option ℕ
  pub auto_renewal : Bool
  pub payment_provider : PaymentProvider
  pub external_id : Option String
  pub created_at : ℕ
  pub updated_at : ℕ

pub record GetUserSubscriptionsQuery : Type 0 where
  pub user_id : ℕ
  pub page_number : ℕ
  pub page_size : ℕ
  pub sort_by : String
  pub sort_direction : SortDirection

-- The columns that hold a date or a number that is never missing.
abbrev pub subscription_column : String → Option (Subscription → ℕ)
subscription_column column =
    if column === "createdAt"
    then some (λ s. s.created_at)
    else if column === "updatedAt"
    then some (λ s. s.updated_at)
    else none

-- The function that `getUserSubscriptions` maps over the rows.
abbrev pub subscription_output : Subscription → SubscriptionOutputDto
subscription_output s = record {
  id = s.id;
  user_id = s.user_id;
  account_type = s.account_type;
  status = s.status;
  valid_until = s.valid_until;
  auto_renewal = s.auto_renewal;
  payment_provider = s.payment_provider;
  external_id = s.external_id;
  created_at = s.updated_at;
  updated_at = s.updated_at;
}

module _ (subscription : Pager Subscription subscription_column) where
  unfoldable pub get_user_subscriptions :
      GetUserSubscriptionsQuery → List Subscription → BasePaginatedOutputDto SubscriptionOutputDto
  get_user_subscriptions q t =
      map_to_output
        (map subscription_output (
          subscription.find_page (is_sub_of q.user_id) q.sort_by q.sort_direction
            ((q.page_number - 1) * q.page_size) q.page_size t))
        q.page_number q.page_size (subscription.count_rows (is_sub_of q.user_id) t)

  -- `GetMySubscriptionsUseCase.execute`
  unfoldable pub get_my_subscriptions :
      GetUserSubscriptionsQuery → List Subscription → BasePaginatedOutputDto SubscriptionOutputDto
  unfolding get_user_subscriptions
  get_my_subscriptions = get_user_subscriptions

-- What the gateway sends to the payments service.
pub record PaymentsRequest : Type 0 where
  pub user_id : ℕ
  pub query_params : BaseQueryParams

-- `GetMyPaymentsUseCase.execute` of the gateway.
unfoldable pub get_my_payments :
    {A : Type 0}
    → (remote : PaymentsRequest → Result (BasePaginatedOutputDto A)) → (user_id : ℕ)
    → BaseQueryParams
    → Notification (BasePaginatedOutputDto A)
get_my_payments remote user_id query_params =
    elim (remote (record { user_id = user_id; query_params = query_params })) [
      | ok payments ↦ success (some payments)
      | throws e ↦ internal_error "Failed to fetch payments from payments service"
    ]
