-- ===== src/Device/Store.antt =====
-- What the repository of devices promises its clients, without its rows: a slot for each identifier.
pub mod Rows
pub mod Changes
pub mod Calls
pub mod Refinement
mod Examples
use photer_api.Base.{
  ℕ, String, Bool, true, false, not, ◌&&◌, List, [], ◌∷◌, ◌==◌, ◌===◌, Action, Result, ok, throws,
  rejection, pure, ◌>>◌, Delegate, if◌then◌else◌,
}
use photer_api.Device.{
  Device, same_id, create_device, update_iat, delete_one_by_device_id_and_iat,
  delete_one_by_device_id_and_user_id, delete_all_other_by_device_id_and_user_id,
}

-- An identifier is not used yet, names a session of a user with the date of its token, or named one.
pub data Slot : Type 0 where
  unused ended : Slot
  live : (user_id iat : ℕ) → Slot

abbrev pub Slots : Type 0
Slots = String → Slot

pub data Call : Type 0 where
  create : Device → Call
  renew : (id : String) (iat : ℕ) → Call
  close : (id : String) (iat : ℕ) → Call
  terminate : (id : String) (user_id : ℕ) → Call
  terminate_others : (id : String) (user_id : ℕ) → Call

module _ (device : Delegate Device same_id) where
  -- A call of the repository. Its clients do not read how many others were ended.
  abbrev pub call : Call → Action (List Device) Bool
  call (create d) = create_device device d
  call (renew id iat) = update_iat device id iat
  call (close id iat) = delete_one_by_device_id_and_iat device id iat
  call (terminate id user_id) = delete_one_by_device_id_and_user_id device id user_id
  call (terminate_others id user_id) =
      delete_all_other_by_device_id_and_user_id device id user_id >> pure true

  pub run : List Call → List Device → List (Result Bool) × List Device
  run [] t = ([], t)
  run (c ∷ cs) t = let (r, t') = call c t in let (rs, t'') = run cs t' in (r ∷ rs, t'')

abbrev pub put : String → Slot → Slots → Slots
put id slot f j = if j === id then slot else f j

abbrev pub not_found_row : Result Bool
not_found_row = throws (rejection "Record to update not found")

abbrev pub end_if : Bool → String → Slots → Result Bool × Slots
end_if hit id f = if hit then (ok true, put id ended f) else (not_found_row, f)

abbrev pub end_other : String → ℕ → (j : String) → Slot → Slot
end_other id user_id j (live u i) = if u == user_id && not (j === id) then ended else live u i
end_other id user_id j unused = unused
end_other id user_id j ended = ended

-- The same calls on the slots.
abbrev pub respond : Call → Slots → Result Bool × Slots
respond (create d) f = elim (f d.id) [
  | unused ↦ (ok true, put d.id (live d.user_id d.iat) f)
  | _ ↦ (ok false, f)
]
respond (renew id iat) f = elim (f id) [
  | live u i ↦ (ok true, put id (live u iat) f)
  | _ ↦ (ok false, f)
]
respond (close id iat) f = elim (f id) [
  | live u i ↦ end_if (i == iat) id f
  | _ ↦ (not_found_row, f)
]
respond (terminate id user_id) f = elim (f id) [
  | live u i ↦ end_if (u == user_id) id f
  | _ ↦ (not_found_row, f)
]
respond (terminate_others id user_id) f = (ok true, λ j. end_other id user_id j (f j))

pub replay : List Call → Slots → List (Result Bool) × Slots
replay [] f = ([], f)
replay (c ∷ cs) f = let (r, f') = respond c f in let (rs, f'') = replay cs f' in (r ∷ rs, f'')
