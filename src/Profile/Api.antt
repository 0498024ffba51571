-- ===== src/Profile/Api.antt =====
-- apps/gateway/src/features/profile/api/profile.controller.ts. An endpoint gets what the use case or
-- the query that it runs has ended with.
use Prim.Native.String.{◌++◌ as ◌<>◌}
use photer_api.Base.{ℕ, String, Option, none, some, [], ◌∷◌, Action, Result, error, rejection}
use photer_api.Notification.{
  Notification, success_status, not_found_status, forbidden_status, bad_request_status,
  internal_error_status,
}
use photer_api.Payments.Text.{decimal}
use photer_api.Profile.Queries.{ProfileOutputDto}
use photer_api.Http.{
  Outcome, raises, unhandled, plain, executed, bad_request_exception, not_found_exception,
  forbidden_exception, internal_server_error_exception,
}

-- `getProfileById`
unfoldable pub on_get_profile_by_id : ℕ → Option ProfileOutputDto → Outcome ProfileOutputDto
on_get_profile_by_id id none =
    raises (not_found_exception (some ("Profile with id " <> decimal id <> " not found")))
on_get_profile_by_id id (some profile) = plain 200 (some profile)

-- `getCurrentUserProfile`
unfoldable pub on_get_current_user_profile : ℕ → Option ProfileOutputDto → Outcome ProfileOutputDto
on_get_current_user_profile user_id none =
    raises
      (not_found_exception (some ("Profile for user with id " <> decimal user_id <> " not found")))
on_get_current_user_profile user_id (some profile) = plain 200 (some profile)

-- `getProfileByUserId`
unfoldable pub on_get_profile_by_user_id : ℕ → Option ProfileOutputDto → Outcome ProfileOutputDto
on_get_profile_by_user_id id none =
    raises (not_found_exception (some ("Profile for user with id " <> decimal id <> " not found")))
on_get_profile_by_user_id id (some profile) = plain 200 (some profile)

-- The created profile, as the query finds it; a condition without a key is refused by the client.
abbrev created_profile : (ℕ → Option ProfileOutputDto) → Option ℕ → Outcome ProfileOutputDto
created_profile find none = raises (unhandled (rejection "Argument where needs at least one key"))
created_profile find (some id) = plain 201 (find id)

-- `create`, with `find` on the profiles that it leaves.
unfoldable pub on_create_profile :
    (find : ℕ → Option ProfileOutputDto) → Result (Notification ℕ) → Outcome ProfileOutputDto
on_create_profile find run = executed run (λ result. elim result.status [
  | bad_request_status ↦ raises (bad_request_exception result.extensions)
  | internal_error_status ↦ raises (internal_server_error_exception none)
  | _ ↦ created_profile find result.datum
])

-- `update`
unfoldable pub on_update_profile : {T : Type 0} → Result (Notification T) → Outcome (Unit {0})
on_update_profile run = executed run (λ result. elim result.status [
  | not_found_status ↦ raises (not_found_exception result.error_message)
  | forbidden_status ↦ raises (forbidden_exception result.error_message)
  | bad_request_status ↦ raises (bad_request_exception result.extensions)
  | success_status ↦ plain 204 none
  | _ ↦ raises (internal_server_error_exception (some "Unexpected error"))
])

-- `delete`
unfoldable pub on_delete_profile : {T : Type 0} → Result (Notification T) → Outcome (Unit {0})
on_delete_profile run = executed run (λ result. elim result.status [
  | success_status ↦ plain 204 none
  | not_found_status ↦ raises (not_found_exception result.error_message)
  | _ ↦ raises (internal_server_error_exception result.error_message)
])

-- A property of `null` is read for an upload that has not succeeded.
abbrev uploaded : Option String → Outcome String
uploaded none = raises (unhandled (error "Cannot read properties of null (reading 'fileUrl')"))
uploaded (some file_url) = plain 201 (some file_url)

-- `uploadAvatar`: without a file no command is run.
unfoldable pub on_upload_avatar :
    {S F : Type 0} → (file : Option F) → Action S (Notification String) → S → Outcome String × S
on_upload_avatar none run s = (
  raises (
      bad_request_exception
        (some (record { field = "file"; text = "Avatar file is required" } ∷ []))),
  s,
)
on_upload_avatar (some file) run s =
    let (r, s') = run s in (executed r (λ result. uploaded result.datum), s')
