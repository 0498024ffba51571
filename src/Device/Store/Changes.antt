-- ===== src/Device/Store/Changes.antt =====
-- A change of the row of one identifier, as a change of its slot.
use mathlib.Core.Path.{fun_ext}
use photer_api.Base.{
  ◌≡◌, ◌⊎◌, inl, inr, refl, sym, ap, ◌∙◌, String, Bool, true, false, none, some, List, arith, ◌===◌,
  Delegate, All-Has, change, Bool-cases, Option-cases,
}
use photer_api.Device.{Device, same_id}
use photer_api.Device.Store.{put}
use photer_api.Device.Store.Rows.{
  row_at, slot_of, view, IsUnique, row_at-Has, IsUnique-row_at, row_at-change,
}

module _ (device : Delegate Device same_id) where
  view-change :
      (id : String) (p : Device → Bool) (f : Device → Device) (t : List Device) {x : Device}
      → ((d : Device) → p d ≡ true → d.id ≡ id)
      → ((d : Device) → (f d).id ≡ d.id)
      → row_at id t ≡ some x
      → p x ≡ true
      → (j : String) → view (change p f t) j ≡ put id (slot_of (some (f x))) (view t) j
  view-change id p f t {x} at same row b j = elim (Bool-cases (j === id)) [
    | inl here ↦
        let same_row : row_at j t ≡ some x = ap (λ i. row_at i t) (ground arith) ∙ row in
        rw (row_at-change p f same j t, same_row, b, here) refl
    | inr there ↦ elim (Option-cases (row_at j t)) [
      | inl n ↦ rw (row_at-change p f same j t, n, there) refl
      | inr (d, e) ↦
          let miss : p d ≡ false = elim (Bool-cases (p d)) [
            | inr m ↦ m
            | inl h ↦ let (_, q) = row_at-Has j t e in let r = at d h in ground arith
          ] in
          rw (row_at-change p f same j t, e, miss, there) refl
    ]
  ]

  -- A change of the one row of an identifier.
  abbrev pub IsHit : String → (Device → Bool) → (Device → Device) → List Device → Device → Type 0
  IsHit id p f t x =
      (device.find_first p t ≡ some x)
      × (row_at id t ≡ some x)
      × (p x ≡ true)
      × (view (change p f t) ≡ put id (slot_of (some (f x))) (view t))

  pub update_cases :
      (id : String) (p : Device → Bool) (f : Device → Device) (t : List Device)
      → ((d : Device) → p d ≡ true → d.id ≡ id)
      → ((d : Device) → (f d).id ≡ d.id)
      → IsUnique t
      → ((device.find_first p t ≡ none) × ((d : Device) → row_at id t ≡ some d → p d ≡ false))
        ⊎ ((x : Device) × IsHit id p f t x)
  update_cases id p f t at same u = elim (Option-cases (device.find_first p t)) [
    | inl n ↦ inl (
      n,
      λ d e.
          let (h, q) = row_at-Has id t e in
          All-Has (λ x. p x ≡ false) t (device.find_first-none p t n) h,
    )
    | inr (x, e) ↦
        let (h, b) = device.find_first-some p t x e in
        let row : row_at id t ≡ some x =
          ap (λ j. row_at j t) (sym (at x b)) ∙ IsUnique-row_at t u h in
        inr (x, (e, row, b, fun_ext (view-change id p f t at same row b)))
  ]
