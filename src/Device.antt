-- ===== src/Device.antt =====
-- apps/gateway/src/features/device: the entity (domain/device.entity.ts), its repository and its
-- query repository (infrastructure). A date is its number of milliseconds, also where the source
-- passes it as an ISO string.
pub mod Termination
pub mod Laws
pub mod Store
mod Examples
use photer_api.Base.{
  ℕ, ◌*◌, String, Bool, true, false, not, ◌&&◌, Option, none, some, List, map, ◌==◌, ltb, ◌===◌,
  Action, pure, catching, ◌>>=◌, Delegate, run_update, run_update_many, run_create,
}

-- A row of the table and the entity have the same fields.
pub record Device : Type 0 where
  pub id : String
  pub user_id : ℕ
  pub device_name : String
  pub ip : String
  pub iat : ℕ
  pub exp : ℕ
  pub is_deleted : Bool

-- `@id` in the schema.
abbrev pub same_id : Device → Device → Bool
same_id d e = d.id === e.id

unfoldable pub create : String → ℕ → String → String → ℕ → ℕ → Device
create device_id user_id device_name ip iat exp = record {
  id = device_id;
  user_id = user_id;
  device_name = device_name;
  ip = ip;
  iat = iat * 1000;
  exp = exp * 1000;
  is_deleted = false;
}

unfoldable pub restore : String → ℕ → String → String → ℕ → ℕ → Bool → Device
restore id user_id device_name ip iat exp is_deleted = record {
  id = id;
  user_id = user_id;
  device_name = device_name;
  ip = ip;
  iat = iat;
  exp = exp;
  is_deleted = is_deleted;
}

unfoldable pub map_to_domain : Device → Device
unfolding restore
map_to_domain d = restore d.id d.user_id d.device_name d.ip d.iat d.exp d.is_deleted

abbrev found : Option Device → Option Device
found none = none
found (some d) = some (map_to_domain d)

-- apps/gateway/base/utils/convert-unix-to-iso.ts
unfoldable pub unix_to_iso_string : Option ℕ → ℕ → ℕ
unix_to_iso_string none now = now
unix_to_iso_string (some unix_date) now = unix_date * 1000

pub record DeviceOutputDto : Type 0 where
  pub ip : String
  pub title : String
  pub last_active_date : ℕ
  pub device_id : String

unfoldable pub map_to_output : Device → DeviceOutputDto
map_to_output d = record {
  ip = d.ip;
  title = d.device_name;
  last_active_date = d.iat;
  device_id = d.id;
}

-- The conditions of the queries.
abbrev pub is_session : String → ℕ → Device → Bool
is_session device_id iat d = d.id === device_id && d.iat == iat && not d.is_deleted

abbrev pub is_active : String → Device → Bool
is_active device_id d = d.id === device_id && not d.is_deleted

abbrev pub is_active_of : String → ℕ → Device → Bool
is_active_of device_id user_id d = d.id === device_id && d.user_id == user_id && not d.is_deleted

abbrev pub is_other : String → ℕ → Device → Bool
is_other device_id user_id d = d.user_id == user_id && not (d.id === device_id) && not d.is_deleted

abbrev pub is_listed : ℕ → Device → Bool
is_listed user_id d = d.user_id == user_id && not d.is_deleted

abbrev pub mark_deleted : Device → Device
mark_deleted d = record d { is_deleted = true }

abbrev pub set_iat : ℕ → Device → Device
set_iat iat d = record d { iat = iat }

module _ (device : Delegate Device same_id) where
  unfoldable pub create_device : Device → Action (List Device) Bool
  create_device d =
      catching (run_create device (record d { is_deleted = false }) >>= λ created. pure true)
        (λ e. pure false)

  unfoldable pub find_one_by_device_id_and_iat : String → ℕ → List Device → Option Device
  find_one_by_device_id_and_iat device_id iat t =
      found (device.find_first (is_session device_id iat) t)

  unfoldable pub find_by_device_id : String → List Device → Option Device
  find_by_device_id device_id t = found (device.find_first (is_active device_id) t)

  unfoldable pub update_iat : String → ℕ → Action (List Device) Bool
  update_iat device_id iat =
      catching (run_update device (is_active device_id) (set_iat iat) >>= λ result. pure true)
        (λ e. pure false)

  unfoldable pub delete_one_by_device_id_and_user_id : String → ℕ → Action (List Device) Bool
  delete_one_by_device_id_and_user_id device_id user_id = do
    result ← run_update device (is_active_of device_id user_id) mark_deleted
    pure result.is_deleted

  unfoldable pub delete_one_by_device_id_and_iat : String → ℕ → Action (List Device) Bool
  delete_one_by_device_id_and_iat device_id iat = do
    result ← run_update device (is_session device_id iat) mark_deleted
    pure result.is_deleted

  unfoldable pub delete_all_other_by_device_id_and_user_id : String → ℕ → Action (List Device) Bool
  delete_all_other_by_device_id_and_user_id device_id user_id = do
    n ← run_update_many device (is_other device_id user_id) mark_deleted
    pure (ltb 0 n)

  unfoldable pub find_all : ℕ → List Device → List DeviceOutputDto
  find_all user_id t = map map_to_output (device.find_many (is_listed user_id) t)
