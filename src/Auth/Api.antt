-- ===== src/Auth/Api.antt =====
-- apps/gateway/src/features/auth/api/auth.controller.ts. An endpoint gets what the use case it runs has
-- ended with; Auth/Api/Requests.antt runs the two behind the guards of a session.
pub mod Requests
mod Examples
use photer_api.Base.{
  ℕ, String, Bool, true, false, not, ◌&&◌, Option, none, some, List, [], ◌∷◌, Action, Result, ok,
  throws, if◌then◌else◌,
}
use photer_api.Notification.{
  Notification, ResultStatus, bad_request_status, not_found_status, unauthorized_status,
}
use photer_api.Auth.Sessions.{TokenPair}
use photer_api.User.Queries.{AuthMeOutputDto}
use photer_api.Http.{
  Outcome, responds, raises, plain, executed, bad_request_exception, not_found_exception,
  unauthorized_error,
}

abbrev pub is_bad_request : ResultStatus → Bool
is_bad_request bad_request_status = true
is_bad_request _ = false

abbrev pub is_not_found : ResultStatus → Bool
is_not_found not_found_status = true
is_not_found _ = false

abbrev pub is_unauthorized : ResultStatus → Bool
is_unauthorized unauthorized_status = true
is_unauthorized _ = false

-- `registration`
unfoldable pub on_registration : {T : Type 0} → Result (Notification T) → Outcome (Unit {0})
on_registration run = executed run (λ result.
    if is_bad_request result.status
    then raises (bad_request_exception result.extensions)
    else plain 204 none)

unfoldable pub on_confirm_registration : {T : Type 0} → Result (Notification T) → Outcome (Unit {0})
on_confirm_registration run = executed run (λ result.
    if is_bad_request result.status
    then raises (bad_request_exception result.extensions)
    else plain 204 none)

unfoldable pub on_registration_email_resending :
    {T : Type 0} → Result (Notification T) → Outcome (Unit {0})
on_registration_email_resending run = executed run (λ result.
    if is_bad_request result.status
    then raises (bad_request_exception result.extensions)
    else plain 204 none)

-- The two tokens of a session: one in a cookie, one in the body.
abbrev with_cookie : TokenPair → Outcome String
with_cookie tokens = responds (record {
  status = 200;
  cookie = some tokens.refresh_token;
  is_cleared = false;
  content = some tokens.access_token;
})

abbrev answered_session : (text : Option String) → ResultStatus → Option TokenPair → Outcome String
answered_session text status none = raises (unauthorized_error text)
answered_session text status (some tokens) =
    if is_unauthorized status then raises (unauthorized_error text) else with_cookie tokens

unfoldable pub on_login : Result (Notification TokenPair) → Outcome String
on_login run =
    executed run (λ result. answered_session result.error_message result.status result.datum)

-- `isValue` asks Google's reCAPTCHA: its answer is an argument. Without it no command is run.
unfoldable pub on_password_recovery :
    {S T : Type 0} → (is_value : Bool) → Action S (Notification T) → S → Outcome (Unit {0}) × S
on_password_recovery is_value run s =
    if is_value
    then (let (r, s') = run s in
        (
          executed r (λ result.
              if is_not_found result.status
              then raises (not_found_exception result.error_message)
              else plain 204 none),
          s',
        ))
    else (
      raises (
          bad_request_exception
            (some (record { field = "Captcha"; text = "Incorrect captcha" } ∷ []))),
      s,
    )

unfoldable pub on_resend_recovery_link : {T : Type 0} → Result (Notification T) → Outcome (Unit {0})
on_resend_recovery_link run = executed run (λ result.
    if is_not_found result.status
    then raises (not_found_exception (some "User with this email does not exist"))
    else plain 204 none)

unfoldable pub on_new_password : {T : Type 0} → Result (Notification T) → Outcome (Unit {0})
on_new_password run = executed run (λ result.
    if is_bad_request result.status
    then raises (bad_request_exception result.extensions)
    else plain 204 none)

unfoldable pub on_refresh_token : Result (Notification TokenPair) → Outcome String
on_refresh_token run = executed run (λ result. answered_session none result.status result.datum)

unfoldable pub on_logout : {T : Type 0} → Result (Notification T) → Outcome (Unit {0})
on_logout run = executed run (λ result.
    if is_unauthorized result.status
    then raises (unauthorized_error none)
    else responds (record { status = 204; cookie = none; is_cleared = true; content = none }))

-- `authMe`; the query does not answer `null`.
unfoldable pub on_auth_me : Result AuthMeOutputDto → Outcome AuthMeOutputDto
on_auth_me run = executed run (λ user. plain 200 (some user))

abbrev callback_of : (text : Option String) → ResultStatus → Option TokenPair → Outcome (Unit {0})
callback_of text status none = raises (unauthorized_error text)
callback_of text status (some tokens) =
    if is_unauthorized status
    then raises (unauthorized_error text)
    else responds (record {
      status = 302;
      cookie = some tokens.refresh_token;
      is_cleared = false;
      content = none;
    })

-- `oauthCallback`, which redirects to the site.
unfoldable pub on_oauth_callback : Result (Notification TokenPair) → Outcome (Unit {0})
on_oauth_callback run =
    executed run (λ result. callback_of result.error_message result.status result.datum)
