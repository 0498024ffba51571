-- ===== src/Http/Statuses.antt =====
-- The statuses of the notifications and of the replies.
use photer_api.Base.{ℕ, ◌≡◌, refl, String, Bool, true, false, Option, List, ok, if◌then◌else◌}
use photer_api.Notification.{
  Notification, Extension, ResultStatus, success_status, not_found_status, forbidden_status,
  unauthorized_status, bad_request_status, too_many_requests_status, internal_error_status,
  conflict_status,
}
use photer_api.Http.{Outcome, reply, custom_exception_filter}
use photer_api.Auth.Api.{on_registration, on_confirm_registration, on_new_password}
use photer_api.Post.Api.{on_update_post, on_delete_post}
use photer_api.Profile.Api.{on_update_profile}
use photer_api.Subscription.Api.{on_cancel_auto_renewal, on_enable_auto_renewal}

-- The status of HTTP that a status of a notification is named after.
abbrev pub http_code : ResultStatus → ℕ
http_code success_status = 204
http_code not_found_status = 404
http_code forbidden_status = 403
http_code unauthorized_status = 401
http_code bad_request_status = 400
http_code too_many_requests_status = 429
http_code internal_error_status = 500
http_code conflict_status = 409

abbrev pub code_of : {A : Type 0} → Outcome A → ℕ
code_of outcome = (reply outcome).status_code

abbrev pub is_write_status : ResultStatus → Bool
is_write_status success_status = true
is_write_status not_found_status = true
is_write_status forbidden_status = true
is_write_status bad_request_status = true
is_write_status _ = false

abbrev pub is_delete_status : ResultStatus → Bool
is_delete_status success_status = true
is_delete_status not_found_status = true
is_delete_status forbidden_status = true
is_delete_status _ = false

abbrev pub is_renewal_status : ResultStatus → Bool
is_renewal_status not_found_status = true
is_renewal_status conflict_status = true
is_renewal_status _ = false

abbrev pub is_form_status : ResultStatus → Bool
is_form_status bad_request_status = true
is_form_status _ = false

abbrev pub AnswersStatus : {T : Type 0} → Notification T → Type 0
AnswersStatus n =
    let code = http_code n.status in
    (code_of (on_update_post (ok n)) ≡ (if is_write_status n.status then code else 500))
    × (code_of (on_update_profile (ok n)) ≡ (if is_write_status n.status then code else 500))
    × (code_of (on_delete_post (ok n)) ≡ (if is_delete_status n.status then code else 500))
    × (code_of (on_cancel_auto_renewal (ok n)) ≡ (if is_renewal_status n.status then code else 204))
    × (code_of (on_enable_auto_renewal (ok n)) ≡ (if is_renewal_status n.status then code else 204))
    × (code_of (on_registration (ok n)) ≡ (if is_form_status n.status then code else 204))
    × (code_of (on_confirm_registration (ok n)) ≡ (if is_form_status n.status then code else 204))
    × (code_of (on_new_password (ok n)) ≡ (if is_form_status n.status then code else 204))

AnswersStatus-of :
    {T : Type 0} (status : ResultStatus) (datum : Option T) (text : Option String)
    (extensions : Option (List Extension))
    → AnswersStatus {T = T}
        (record { status = status; datum = datum; error_message = text; extensions = extensions })
unfolding on_update_post on_update_profile on_delete_post on_cancel_auto_renewal
    on_enable_auto_renewal on_registration on_confirm_registration on_new_password reply
    custom_exception_filter
AnswersStatus-of success_status d m x = (refl, refl, refl, refl, refl, refl, refl, refl)
AnswersStatus-of not_found_status d m x = (refl, refl, refl, refl, refl, refl, refl, refl)
AnswersStatus-of forbidden_status d m x = (refl, refl, refl, refl, refl, refl, refl, refl)
AnswersStatus-of unauthorized_status d m x = (refl, refl, refl, refl, refl, refl, refl, refl)
AnswersStatus-of bad_request_status d m x = (refl, refl, refl, refl, refl, refl, refl, refl)
AnswersStatus-of too_many_requests_status d m x = (refl, refl, refl, refl, refl, refl, refl, refl)
AnswersStatus-of internal_error_status d m x = (refl, refl, refl, refl, refl, refl, refl, refl)
AnswersStatus-of conflict_status d m x = (refl, refl, refl, refl, refl, refl, refl, refl)

-- The status of a reply, by the status of the notification: the changes of a post and of a profile
-- and the deletion of a post answer with the status of HTTP of the name for those that they tell
-- apart, and with 500 for any other. The two switches of the auto-renewal and the forms of an account
-- answer with it for those that they tell apart, and with 204 for any other, also for an error.
pub endpoints_answer_status : {T : Type 0} (n : Notification T) → AnswersStatus n
endpoints_answer_status n = AnswersStatus-of n.status n.datum n.error_message n.extensions
