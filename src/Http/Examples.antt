-- ===== src/Http/Examples.antt =====
-- The replies to one notification of each kind.
use photer_api.Base.{◌≡◌, refl, ok}
use photer_api.Notification.{Notification, conflict}
use photer_api.Http.{reply, custom_exception_filter}
use photer_api.Http.Statuses.{AnswersStatus, code_of, endpoints_answer_status}
use photer_api.Subscription.Api.{on_cancel_auto_renewal}

abbrev canceled : Notification (Unit {0})
canceled = conflict "Auto-renewal already canceled"

canceled_code : code_of (on_cancel_auto_renewal (ok canceled)) ≡ 409
unfolding on_cancel_auto_renewal reply custom_exception_filter
canceled_code = refl

endpoints_answer_status_example : AnswersStatus canceled
endpoints_answer_status_example = endpoints_answer_status canceled
