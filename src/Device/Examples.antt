-- ===== src/Device/Examples.antt =====
-- Ending sessions at a small table of devices.
use Prim.Native.String.{◌++◌ as ◌<>◌}
use photer_api.Base.{
  ℕ, ◌≡◌, ◌≢◌, ◌⊎◌, String, true, false, none, List, [], ◌∷◌, Delegate, All, Has, change, ok,
}
use photer_api.Base.Prisma.Memory.{list_delegate}
use photer_api.Notification.{success, not_found, forbidden}
use photer_api.Device.{Device, same_id, is_active, is_active_of, mark_deleted}
use photer_api.Device.Termination.{terminate_user_device}
use photer_api.Device.Laws.{terminate_user_device_cases}

abbrev devices : Delegate Device same_id
devices = list_delegate same_id

abbrev of_user : String → ℕ → Device
of_user id user_id = record {
  id = id;
  user_id = user_id;
  device_name = "Pixel";
  ip = "10.0.0.1";
  iat = 3000;
  exp = 9000;
  is_deleted = false;
}

abbrev table : List Device
table = of_user "phone" 7 ∷ of_user "laptop" 7 ∷ of_user "tablet" 8 ∷ []

terminate_user_device_cases_example :
    let (r, t') = terminate_user_device devices "tablet" 7 table in
    (All (λ d. is_active "tablet" d ≡ false) table
      × (r ≡ ok (not_found ("Device with id " <> "tablet" <> " does not exist")))
      × (t' ≡ table))
    ⊎ ((d : Device) × Has d table
        × (is_active "tablet" d ≡ true)
        × (d.user_id ≢ 7)
        × (r ≡ ok (forbidden "You do not have permission to delete this device"))
        × (t' ≡ table))
    ⊎ ((d : Device) × Has d table
        × (is_active_of "tablet" 7 d ≡ true)
        × (r ≡ ok (success none))
        × (t' ≡ change (is_active_of "tablet" 7) mark_deleted table))
terminate_user_device_cases_example = terminate_user_device_cases devices "tablet" 7 table
