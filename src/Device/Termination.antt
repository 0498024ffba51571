-- ===== src/Device/Termination.antt =====
-- Ending sessions: apps/gateway/src/features/device/application/use-cases, and the handlers of
-- api/device.controller.ts. The guard of the controller has set the ids of the request's device.
use Prim.Native.String.{◌++◌ as ◌<>◌}
use photer_api.Base.{
  ℕ, String, not, Option, none, some, List, ◌==◌, Action, pure, ◌>>=◌, ◌>>◌, Delegate,
  if◌then◌else◌,
}
use photer_api.Notification.{
  Notification, not_found_status, forbidden_status, success, not_found, forbidden,
}
use photer_api.Device.{
  Device, DeviceOutputDto, same_id, find_by_device_id, delete_one_by_device_id_and_user_id,
  delete_all_other_by_device_id_and_user_id, find_all, map_to_output,
}

-- What a handler of a controller answers: a value with the route's status, or an HTTP error.
pub data Response (A : Type 0) : Type 0 where
  answer : A → Response A
  http_error : (status : ℕ) → (message : Option String) → Response A

module _ (device : Delegate Device same_id) where
  unfoldable pub terminate_all_other_user_devices :
      String → ℕ → Action (List Device) (Notification (Unit {0}))
  unfolding delete_all_other_by_device_id_and_user_id
  terminate_all_other_user_devices device_id user_id = do
    delete_all_other_by_device_id_and_user_id device device_id user_id
    pure (success none)

  unfoldable pub terminate_user_device : String → ℕ → Action (List Device) (Notification (Unit {0}))
  unfolding find_by_device_id delete_one_by_device_id_and_user_id
  terminate_user_device device_id user_id t = elim (find_by_device_id device device_id t) [
    | none ↦ pure (not_found ("Device with id " <> device_id <> " does not exist")) t
    | some d ↦
        if not (d.user_id == user_id)
        then pure (forbidden "You do not have permission to delete this device") t
        else (do delete_one_by_device_id_and_user_id device device_id user_id; pure (success none))
            t
  ]

  -- `terminateUserDevices`
  abbrev to_response : Notification (Unit {0}) → Response (Unit {0})
  to_response n = elim n.status [
    | not_found_status ↦ http_error 404 n.error_message
    | forbidden_status ↦ http_error 403 n.error_message
    | _ ↦ answer tt
  ]

  unfoldable pub terminate_user_devices : String → ℕ → Action (List Device) (Response (Unit {0}))
  terminate_user_devices device_id user_id = do
    result ← terminate_user_device device_id user_id
    pure (to_response result)

  unfoldable pub get_user_devices : ℕ → List Device → List DeviceOutputDto
  unfolding find_all map_to_output
  get_user_devices user_id t = find_all device user_id t
