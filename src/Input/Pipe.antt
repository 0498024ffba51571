-- ===== src/Input/Pipe.antt =====
-- apps/gateway/src/setup/pipes.setup.ts: the answer to a body that a DTO refuses.
use photer_api.Base.{
  ◌≡◌, ◌↔◌, ◌⊎◌, inl, inr, refl, ap, subst, arith, Has, String, Option, none, some, List, [], ◌∷◌,
}
use photer_api.Notification.{Extension}
use photer_api.Http.{Reply, errors_messages}

-- class-validator's; `constraints` are the texts of the checks that failed.
pub record ValidationError : Type 0 where
  pub property : String
  pub constraints : Option (List String)

-- Only the first text of a property is sent.
abbrev with_first : String → Option (List String) → List Extension → List Extension
with_first property none others = others
with_first property (some []) others = others
with_first property (some (text ∷ texts)) others = record { field = property; text = text } ∷ others

abbrev pub custom_errors : List ValidationError → List Extension
custom_errors [] = []
custom_errors (e ∷ errors) = with_first e.property e.constraints (custom_errors errors)

-- `HttpExceptionFilter.catch`, of a `BadRequestException` whose message is a list.
unfoldable pub bad_request_reply : {A : Type 0} → List Extension → Reply A
bad_request_reply messages = record {
  status_code = 400;
  cookie = none;
  body = errors_messages messages;
}

-- What the `exceptionFactory` throws, as it is answered.
unfoldable pub validation_reply : {A : Type 0} → List ValidationError → Reply A
validation_reply errors = bad_request_reply (custom_errors errors)

abbrev IsFirst : Extension → String → Option (List String) → Type 0
IsFirst x property constraints =
    (x.field ≡ property) × ((texts : List String) × (constraints ≡ some (x.text ∷ texts)))

with_first-Has :
    (x : Extension) (property : String) (constraints : Option (List String))
    (others : List Extension)
    → Has x (with_first property constraints others)
      ↔ (IsFirst x property constraints ⊎ Has x others)
with_first-Has x property none others = (inr, λ h. elim h [ inl (_, (texts, e)) ↦ cc | inr k ↦ k ])
with_first-Has x property (some []) others =
    (inr, λ h. elim h [ inl (_, (texts, e)) ↦ cc | inr k ↦ k ])
with_first-Has x property (some (text ∷ texts)) others = (
  λ h. elim h [ inl e ↦ inl (ap (λ z. z.field) e, (texts, ground arith)) | inr k ↦ inr k ],
  λ h. elim h [ inl (f, (texts', e)) ↦ inl (ground arith) | inr k ↦ inr k ],
)

-- The answer to a body that fails the checks of its DTO: the status is 400, and an entry is sent for
-- exactly the properties with a failed check, with the name of the property and the first of its
-- texts, and for no other.
pub validation_reply_lists :
    (errors : List ValidationError)
    → (validation_reply {A = String} errors ≡ record {
      status_code = 400;
      cookie = none;
      body = errors_messages (custom_errors errors);
    })
      × ((x : Extension)
          → Has x (custom_errors errors)
            ↔ ((e : ValidationError) × Has e errors × IsFirst x e.property e.constraints))
unfolding validation_reply bad_request_reply
validation_reply_lists errors = (refl, listed errors)
  where
    listed :
        (errors : List ValidationError) (x : Extension)
        → Has x (custom_errors errors)
          ↔ ((e : ValidationError) × Has e errors × IsFirst x e.property e.constraints)
    listed [] x = ((λ h. absurd h), λ (e, h, _). absurd h)
    listed (e ∷ errors) x =
        let (split, join) = with_first-Has x e.property e.constraints (custom_errors errors) in
        let (from, to) = listed errors x in
        (
          λ h. elim (split h) [
            | inl f ↦ (e, inl refl, f)
            | inr k ↦ let (e', k', f) = from k in (e', inr k', f)
          ],
          λ (e', h, f). elim h [
            | inl q ↦ join (inl (subst (λ z. IsFirst x z.property z.constraints) q f))
            | inr k ↦ join (inr (to (e', k, f)))
          ],
        )
