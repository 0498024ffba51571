-- ===== src/Subscription/Api.antt =====
-- apps/gateway/src/features/subscription/api/subscription.controller.ts. An endpoint gets what the use
-- case or the query that it runs has ended with.
use photer_api.Base.{String, Option, none, some, Result}
use photer_api.Notification.{Notification, success_status, not_found_status, conflict_status}
use photer_api.Query.{BasePaginatedOutputDto}
use photer_api.Subscription.Queries.{SubscriptionOutputDto}
use photer_api.Http.{
  Outcome, raises, plain, executed, not_found_exception, conflict_exception,
  internal_server_error_exception,
}

-- `createSubscription`, which answers with the address of the checkout.
unfoldable pub on_create_subscription : Result (Notification String) → Outcome (Option String)
on_create_subscription run = executed run (λ result. elim result.status [
  | success_status ↦ plain 201 (some result.datum)
  | conflict_status ↦ raises (conflict_exception result.error_message)
  | _ ↦ raises (internal_server_error_exception result.error_message)
])

-- `getMyPayments`: the notification itself is the content.
unfoldable pub on_my_payments :
    {A : Type 0}
    → Notification (BasePaginatedOutputDto A)
    → Outcome (Notification (BasePaginatedOutputDto A))
on_my_payments result = plain 200 (some result)

-- `getMySubscriptions`
unfoldable pub on_my_subscriptions :
    BasePaginatedOutputDto SubscriptionOutputDto
    → Outcome (BasePaginatedOutputDto SubscriptionOutputDto)
on_my_subscriptions page = plain 200 (some page)

-- `cancelAutoRenewal`
unfoldable pub on_cancel_auto_renewal : {T : Type 0} → Result (Notification T) → Outcome (Unit {0})
on_cancel_auto_renewal run = executed run (λ result. elim result.status [
  | not_found_status ↦ raises (not_found_exception result.error_message)
  | conflict_status ↦ raises (conflict_exception result.error_message)
  | _ ↦ plain 204 none
])

-- `enableAutoRenewal`
unfoldable pub on_enable_auto_renewal : {T : Type 0} → Result (Notification T) → Outcome (Unit {0})
on_enable_auto_renewal run = executed run (λ result. elim result.status [
  | not_found_status ↦ raises (not_found_exception result.error_message)
  | conflict_status ↦ raises (conflict_exception result.error_message)
  | _ ↦ plain 204 none
])
