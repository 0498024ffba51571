-- ===== src/Device/Store/Rows.antt =====
-- The row of an identifier, in a table that has each identifier once.
use photer_api.Base.{
  ◌≡◌, inl, inr, refl, String, Bool, false, Option, none, some, is_some, List, [], ◌∷◌, arith,
  ◌===◌, All, All-Has, All-change, Has, any, change, if◌then◌else◌, Bool-cases,
}
use photer_api.Device.{Device, same_id}
use photer_api.Device.Store.{Slot, unused, ended, live, Slots}

abbrev pub row_at : String → List Device → Option Device
row_at j [] = none
row_at j (d ∷ ds) = let rest = row_at j ds in if j === d.id then some d else rest

abbrev pub slot_of : Option Device → Slot
slot_of none = unused
slot_of (some d) = if d.is_deleted then ended else live d.user_id d.iat

abbrev pub view : List Device → Slots
view t j = slot_of (row_at j t)

abbrev pub IsUnique : List Device → Type 0
IsUnique [] = Unit
IsUnique (d ∷ ds) = All (λ e. (d.id === e.id) ≡ false) ds × IsUnique ds

pub row_at-Has :
    (j : String) (t : List Device) {d : Device} → row_at j t ≡ some d → Has d t × (d.id ≡ j)
row_at-Has j [] e = cc
row_at-Has j (x ∷ xs) {d} e = elim (Bool-cases (j === x.id)) [
  | inl h ↦ (inl (ground arith), ground arith)
  | inr h ↦ let (k, q) = row_at-Has j xs (ground arith) in (inr k, q)
]

pub any-row_at : (d : Device) (t : List Device) → any (same_id d) t ≡ is_some (row_at d.id t)
any-row_at d [] = refl
any-row_at d (x ∷ xs) = ground (arith, any-row_at d xs)

pub row_at-none :
    (j : String) (t : List Device) → row_at j t ≡ none → All (λ d. (j === d.id) ≡ false) t
row_at-none j [] e = tt
row_at-none j (x ∷ xs) e = elim (Bool-cases (j === x.id)) [
  | inl h ↦ ground arith
  | inr h ↦ (h, row_at-none j xs (ground arith))
]

pub IsUnique-row_at : (t : List Device) {d : Device} → IsUnique t → Has d t → row_at d.id t ≡ some d
IsUnique-row_at [] u h = absurd h
IsUnique-row_at (x ∷ xs) u (inl e) = ground arith
IsUnique-row_at (x ∷ xs) {d} (a, u) (inr h) =
    let apart : (x.id === d.id) ≡ false = All-Has (λ e. (x.id === e.id) ≡ false) xs a h in
    ground (arith, apart, IsUnique-row_at xs u h)

abbrev pub map_row : (Device → Device) → Option Device → Option Device
map_row f none = none
map_row f (some d) = some (f d)

module _ (p : Device → Bool) (f : Device → Device) (same : (d : Device) → (f d).id ≡ d.id) where
  pub row_at-change :
      (j : String) (t : List Device)
      → row_at j (change p f t) ≡ map_row (λ d. if p d then f d else d) (row_at j t)
  row_at-change j [] = refl
  row_at-change j (x ∷ xs) = ground (arith, same x, row_at-change j xs)

  pub change-IsUnique : (t : List Device) → IsUnique t → IsUnique (change p f t)
  change-IsUnique [] u = tt
  change-IsUnique (x ∷ xs) (a, u) = (
    All-change (λ e. (x.id === e.id) ≡ false) (λ e. ((if p x then f x else x).id === e.id) ≡ false)
        p f xs (λ r b _. ground (arith, same x, same r)) (λ r b _. ground (arith, same x)) a,
    change-IsUnique xs u,
  )
