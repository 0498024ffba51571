-- ===== src/Device/Store/Refinement.antt =====
-- The repository of devices keeps its promise over any sequence of calls.
use photer_api.Base.{◌≡◌, refl, Delegate, List, [], ◌∷◌}
use photer_api.Device.{Device, same_id}
use photer_api.Device.Store.{
  Call, create, renew, close, terminate, terminate_others, call, run, replay,
}
use photer_api.Device.Store.Rows.{view, IsUnique}
use photer_api.Device.Store.Calls.{
  Refines, create-respond, renew-respond, close-respond, terminate-respond,
  terminate_others-respond,
}

module _ (device : Delegate Device same_id) where
  call-respond : (c : Call) (t : List Device) → IsUnique t → Refines device c t (call device c t)
  call-respond (create d) = create-respond device d
  call-respond (renew id iat) = renew-respond device id iat
  call-respond (close id iat) = close-respond device id iat
  call-respond (terminate id user_id) = terminate-respond device id user_id
  call-respond (terminate_others id user_id) = terminate_others-respond device id user_id

  -- From a table that has each identifier at most once, any sequence of calls of the repository
  -- answers, call by call, what the same calls answer on the slots of the table: what one observes is
  -- a function from identifiers to an unused slot, a session of a user, or an ended one. The table
  -- that is left shows the slots that are left, and has each identifier at most once.
  pub run_refines :
      (cs : List Call) (t : List Device)
      → IsUnique t
      → IsUnique (run device cs t).1
        × (replay cs (view t) ≡ ((run device cs t).0, view (run device cs t).1))
  unfolding run replay
  run_refines [] t u = (u, refl)
  run_refines (c ∷ cs) t u =
      let (u', e) = call-respond c t u in
      let (u'', e') = run_refines cs (call device c t).1 u' in (u'', rw (e, e') refl)
