-- ===== src/Post/Api.antt =====
-- apps/gateway/src/features/content/post/api/posts.controller.ts. An endpoint gets what the use case
-- or the query that it runs has ended with.
use Prim.Native.String.{◌++◌ as ◌<>◌}
use photer_api.Base.{ℕ, Option, none, some, List, [], ◌∷◌, Action, Result, ◌==◌, if◌then◌else◌}
use photer_api.Notification.{
  Notification, success_status, not_found_status, forbidden_status, bad_request_status,
}
use photer_api.Payments.Text.{decimal}
use photer_api.Post.Queries.{PostOutputDto}
use photer_api.Query.{BasePaginatedOutputDto}
use photer_api.Http.{
  Outcome, raises, plain, executed, bad_request_exception, not_found_exception, forbidden_exception,
  internal_server_error_exception,
}

-- `getAll`
unfoldable pub on_get_all_posts :
    BasePaginatedOutputDto PostOutputDto → Outcome (BasePaginatedOutputDto PostOutputDto)
on_get_all_posts page = plain 200 (some page)

-- `getOne`
unfoldable pub on_get_post : ℕ → Option PostOutputDto → Outcome PostOutputDto
on_get_post id none =
    raises (not_found_exception (some ("Post with id " <> decimal id <> " not found")))
on_get_post id (some post) = plain 200 (some post)

-- The created post, as the query finds it; the number 0 is falsy.
abbrev created_post :
    {S : Type 0}
    → (find : ℕ → S → Option PostOutputDto) → Result (Notification ℕ)
    → S
    → Outcome PostOutputDto
created_post find run s = executed run (λ result. elim result.status [
  | success_status ↦ elim result.datum [
    | none ↦ raises (internal_server_error_exception result.error_message)
    | some id ↦
        if id == 0
        then raises (internal_server_error_exception result.error_message)
        else plain 201 (find id s)
  ]
  | _ ↦ raises (internal_server_error_exception result.error_message)
])

-- `create`: without a photo no command is run.
unfoldable pub on_create_post :
    {S P : Type 0}
    → (find : ℕ → S → Option PostOutputDto) → List P
    → Action S (Notification ℕ)
    → S
    → Outcome PostOutputDto × S
on_create_post find [] run s = (
  raises (
      bad_request_exception
        (some (record { field = "photos"; text = "At least one photo is required" } ∷ []))),
  s,
)
on_create_post find (photo ∷ photos) run s = let (r, s') = run s in (created_post find r s', s')

-- `update`
unfoldable pub on_update_post : {T : Type 0} → Result (Notification T) → Outcome (Unit {0})
on_update_post run = executed run (λ result. elim result.status [
  | not_found_status ↦ raises (not_found_exception result.error_message)
  | forbidden_status ↦ raises (forbidden_exception result.error_message)
  | bad_request_status ↦ raises (bad_request_exception result.extensions)
  | success_status ↦ plain 204 none
  | _ ↦ raises (internal_server_error_exception (some "Unexpected error"))
])

-- `delete`
unfoldable pub on_delete_post : {T : Type 0} → Result (Notification T) → Outcome (Unit {0})
on_delete_post run = executed run (λ result. elim result.status [
  | success_status ↦ plain 204 none
  | not_found_status ↦ raises (not_found_exception result.error_message)
  | forbidden_status ↦ raises (forbidden_exception result.error_message)
  | _ ↦ raises (internal_server_error_exception result.error_message)
])

-- `getUserPosts`
unfoldable pub on_get_user_posts :
    Option (BasePaginatedOutputDto PostOutputDto) → Outcome (BasePaginatedOutputDto PostOutputDto)
on_get_user_posts none = raises (not_found_exception none)
on_get_user_posts (some posts) = plain 200 (some posts)
