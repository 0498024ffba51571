-- ===== src/Http.antt =====
-- apps/gateway/src/core/exception-filters: what a request is answered with. An endpoint responds, or
-- raises what the filters turn into a reply.
pub mod Statuses
mod Examples
use photer_api.Base.{
  ℕ, ◌==◌, String, Bool, true, false, Option, none, some, List, [], ◌∷◌, Result, ok, throws,
  Exception, if◌then◌else◌,
}
use photer_api.Notification.{
  Notification, Extension, ResultStatus, success_status, bad_request_status, not_found_status,
  forbidden_status, unauthorized_status, too_many_requests_status, internal_error_status,
  conflict_status,
}

-- `CustomError`; `text` is its `message`.
pub record CustomError : Type 0 where
  pub status_code : ℕ
  pub error_messages : Option (List Extension)
  pub text : String

-- An error of the application, one of the framework (`HttpException`), and any other.
pub data Thrown : Type 0 where
  custom_error : CustomError → Thrown
  http_exception : (status : ℕ) (text : String) → Thrown
  unhandled : Exception → Thrown

abbrev custom : ℕ → String → Thrown
custom status_code text =
    custom_error (record { status_code = status_code; error_messages = none; text = text })

-- The default of an argument that is `undefined`.
abbrev pub text_or : String → Option String → String
text_or d none = d
text_or d (some s) = s

abbrev pub bad_request_exception : Option (List Extension) → Thrown
bad_request_exception error_messages =
    custom_error
      (record { status_code = 400; error_messages = error_messages; text = "Bad Request" })

abbrev pub not_found_exception : Option String → Thrown
not_found_exception text = custom 404 (text_or "Not Found" text)

abbrev pub unauthorized_error : Option String → Thrown
unauthorized_error text = custom 401 (text_or "Unauthorized" text)

abbrev pub forbidden_exception : Option String → Thrown
forbidden_exception text = custom 403 (text_or "Forbidden" text)

abbrev pub conflict_exception : Option String → Thrown
conflict_exception text = custom 409 (text_or "Conflict" text)

abbrev pub internal_server_error_exception : Option String → Thrown
internal_server_error_exception text = custom 500 (text_or "Something went wrong" text)

-- What is sent; `cookie` is the refresh token of a `res.cookie`.
pub record HttpResponse (A : Type 0) : Type 0 where
  pub status : ℕ
  pub cookie : Option String
  pub is_cleared : Bool
  pub content : Option A

pub data Outcome (A : Type 0) : Type 0 where
  responds : HttpResponse A → Outcome A
  raises : Thrown → Outcome A

pub data Body (A : Type 0) : Type 0 where
  content_of : Option A → Body A
  errors_messages : List Extension → Body A
  problem : (status_code : ℕ) (text : String) → Body A

pub record Reply (A : Type 0) : Type 0 where
  pub status_code : ℕ
  pub cookie : Option String
  pub body : Body A

abbrev pub plain : {A : Type 0} → (status : ℕ) → Option A → Outcome A
plain status content =
    responds (record { status = status; cookie = none; is_cleared = false; content = content })

abbrev messages_or : Option (List Extension) → List Extension
messages_or none = record { field = "unknown"; text = "Unknown error" } ∷ []
messages_or (some messages) = messages

module _ {A : Type 0} where
  -- `CustomExceptionFilter.catch`
  unfoldable pub custom_exception_filter : CustomError → Reply A
  custom_exception_filter e = record {
    status_code = e.status_code;
    cookie = none;
    body =
        if e.status_code == 400
        then errors_messages (messages_or e.error_messages)
        else problem e.status_code e.text;
  }

  -- `HttpExceptionFilter.catch`, of an exception whose response has one message.
  unfoldable pub http_exception_filter : (status : ℕ) (text : String) → Reply A
  http_exception_filter status text = record {
    status_code = status;
    cookie = none;
    body =
        if status == 400
        then errors_messages (record { field = ""; text = text } ∷ [])
        else problem status text;
  }

  -- The filters that the application installs; any other error is Nest's to answer.
  unfoldable pub reply : Outcome A → Reply A
  unfolding custom_exception_filter http_exception_filter
  reply (responds r) = record {
    status_code = r.status;
    cookie = r.cookie;
    body = content_of r.content;
  }
  reply (raises (custom_error e)) = custom_exception_filter e
  reply (raises (http_exception status text)) = http_exception_filter status text
  reply (raises (unhandled e)) = record {
    status_code = 500;
    cookie = none;
    body = problem 500 "Internal server error";
  }

-- `await commandBus.execute(…)`: a use case that throws ends the endpoint.
abbrev pub executed : {A N : Type 0} → Result N → (N → Outcome A) → Outcome A
executed (ok n) k = k n
executed (throws e) k = raises (unhandled e)
