-- ===== src/Notification.antt =====
-- apps/gateway/base/notification/notification.ts: the result of a use case, for its controller.
use photer_api.Base.{String, Option, none, some, List}

pub data ResultStatus : Type 0 where
  success_status not_found_status forbidden_status unauthorized_status bad_request_status
        too_many_requests_status internal_error_status conflict_status :
      ResultStatus

pub record Extension : Type 0 where
  pub field : String
  pub text : String

-- `datum` is the field `data`; an absent or null value is `none`.
pub record Notification (T : Type 0) : Type 0 where
  pub status : ResultStatus
  pub datum : Option T
  pub error_message : Option String
  pub extensions : Option (List Extension)

module _ {T : Type 0} where
  abbrev pub success : Option T → Notification T
  success v = record { status = success_status; datum = v; error_message = none; extensions = none }

  abbrev failure : ResultStatus → Option String → Option (List Extension) → Notification T
  failure s m e = record { status = s; datum = none; error_message = m; extensions = e }

  abbrev pub bad_request : List Extension → Notification T
  bad_request e = failure bad_request_status none (some e)

  abbrev pub not_found : String → Notification T
  not_found m = failure not_found_status (some m) none

  abbrev pub unauthorized : String → Notification T
  unauthorized m = failure unauthorized_status (some m) none

  abbrev pub forbidden : String → Notification T
  forbidden m = failure forbidden_status (some m) none

  abbrev pub conflict : String → Notification T
  conflict m = failure conflict_status (some m) none

  abbrev pub internal_error : String → Notification T
  internal_error m = failure internal_error_status (some m) none

  abbrev pub too_many_requests : String → Notification T
  too_many_requests m = failure too_many_requests_status (some m) none
