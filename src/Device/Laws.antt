-- ===== src/Device/Laws.antt =====
-- What terminating sessions leaves in the table of devices.
use Prim.Native.String.{◌++◌ as ◌<>◌}
use photer_api.Base.{
  ℕ, String, true, false, none, List, ◌≡◌, ◌≢◌, ◌⊎◌, inl, inr, arith, ok, Delegate, All, Has,
  change, Option-cases, Bool-cases, ◌==◌,
}
use photer_api.Base.Prisma.Calls.{find_first_hit, run_update_hit}
use photer_api.Notification.{success, not_found, forbidden}
use photer_api.Device.{
  Device, same_id, is_active, is_active_of, mark_deleted, find_by_device_id,
  delete_one_by_device_id_and_user_id, map_to_domain, restore,
}
use photer_api.Device.Termination.{terminate_user_device}

module _ (device : Delegate Device same_id) (device_id : String) (user_id : ℕ)
    (t : List Device) where
  -- `terminateUserDevice` by cases. Without a session for the device it answers that there is none;
  -- if the session found is another user's it refuses; both leave the table as it was. Otherwise it
  -- succeeds, and marks as deleted the user's session for that device and no other row.
  pub terminate_user_device_cases :
      let (r, t') = terminate_user_device device device_id user_id t in
      (All (λ d. is_active device_id d ≡ false) t
        × (r ≡ ok (not_found ("Device with id " <> device_id <> " does not exist")))
        × (t' ≡ t))
      ⊎ ((d : Device) × Has d t
          × (is_active device_id d ≡ true)
          × (d.user_id ≢ user_id)
          × (r ≡ ok (forbidden "You do not have permission to delete this device"))
          × (t' ≡ t))
      ⊎ ((d : Device) × Has d t
          × (is_active_of device_id user_id d ≡ true)
          × (r ≡ ok (success none))
          × (t' ≡ change (is_active_of device_id user_id) mark_deleted t))
  unfolding terminate_user_device find_by_device_id delete_one_by_device_id_and_user_id
      map_to_domain restore
  terminate_user_device_cases = elim (Option-cases (device.find_first (is_active device_id) t)) [
    | inl n ↦ inl (device.find_first-none _ t n, ground arith, ground arith)
    | inr (d, e) ↦
        let (h, a) = device.find_first-some _ t d e in
        elim (Bool-cases (d.user_id == user_id)) [
          | inl own ↦
              let (x, q, k, b) =
                find_first_hit device (is_active_of device_id user_id) t h (ground arith) in
              let done = run_update_hit device (is_active_of device_id user_id) mark_deleted t q in
              inr (inr (x, k, b, ground (arith, done), ground (arith, done)))
          | inr other ↦ inr (inl (d, h, a, ground arith, ground arith, ground arith))
        ]
  ]
