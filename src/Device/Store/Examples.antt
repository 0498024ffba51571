-- ===== src/Device/Store/Examples.antt =====
-- A run of calls on a table of two sessions and one that has ended.
use photer_api.Base.{
  ℕ, ◌≡◌, refl, String, Bool, true, false, List, [], ◌∷◌, Delegate, ok, text_discrete,
}
use photer_api.Base.Prisma.Memory.{list_delegate}
use photer_api.Device.{
  Device, same_id, create_device, update_iat, delete_one_by_device_id_and_iat,
  delete_one_by_device_id_and_user_id, delete_all_other_by_device_id_and_user_id,
}
use photer_api.Device.Store.{
  Call, create, renew, close, terminate, terminate_others, run, replay, not_found_row,
}
use photer_api.Device.Store.Rows.{view, IsUnique}
use photer_api.Device.Store.Refinement.{run_refines}

abbrev devices : Delegate Device same_id
devices = list_delegate same_id

abbrev session : String → ℕ → Bool → Device
session id user_id is_deleted = record {
  id = id;
  user_id = user_id;
  device_name = "Pixel";
  ip = "10.0.0.1";
  iat = 3000;
  exp = 9000;
  is_deleted = is_deleted;
}

abbrev table : List Device
table = session "phone" 7 false ∷ session "laptop" 7 false ∷ session "tablet" 8 true ∷ []

abbrev calls : List Call
calls =
    create (session "watch" 7 false)
    ∷ create (session "phone" 8 false)
    ∷ renew "watch" 5000
    ∷ close "watch" 3000
    ∷ close "watch" 5000
    ∷ create (session "watch" 7 false)
    ∷ terminate_others "phone" 7
    ∷ terminate "laptop" 7
    ∷ terminate "tablet" 8
    ∷ []

run_refines_example :
    let (rs, t') = run devices calls table in
    IsUnique t' × (replay calls (view table) ≡ (rs, view t'))
unfolding text_discrete
run_refines_example = run_refines devices calls table (((refl, (refl, tt)), ((refl, tt), (tt, tt))))

run_example :
    (run devices calls table).0
    ≡ ok true
      ∷ ok false
      ∷ ok true
      ∷ not_found_row
      ∷ ok true
      ∷ ok false
      ∷ ok true
      ∷ not_found_row
      ∷ not_found_row
      ∷ []
unfolding text_discrete run create_device update_iat delete_one_by_device_id_and_iat
    delete_one_by_device_id_and_user_id delete_all_other_by_device_id_and_user_id
run_example = refl
