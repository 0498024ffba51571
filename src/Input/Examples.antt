-- ===== src/Input/Examples.antt =====
-- A body for each form, under checks that count characters.
use photer_api.Base.{
  ◌≡◌, inl, refl, true, false, ◌&&◌, none, some, List, [], ◌∷◌, leb, ok, codes, points, truthy,
  trim, text_discrete,
}
use photer_api.User.{User, update_username}
use photer_api.Input.{ClassValidator}
use photer_api.Input.Accounts.{
  RegistrationDto, NewPasswordBody, registration_errors, login_errors, new_password_errors,
}
use photer_api.Input.Profiles.{ProfileDto, create_profile_errors, update_profile_errors}
use photer_api.Input.Pipe.{ValidationError, custom_errors}
use photer_api.Input.Rules.{accepted_username_fits, password_rules}

abbrev checks : ClassValidator
checks = record {
  is_length = λ min max s. leb min (points (codes s)) && leb (points (codes s)) max;
  is_not_empty = truthy;
  is_email = λ s. truthy s;
  is_uuid = λ version s. truthy s;
  is_min_age = λ s. true;
  is_length_lem = λ min max s. refl;
  is_not_empty_lem = λ s. refl;
}

abbrev new_account : RegistrationDto
new_account = record {
  username = some "alice_1";
  email = some " a@b.c";
  password = some "secret-1 ";
}

abbrev short_password : NewPasswordBody
short_password = record { new_password = some "abc"; recovery_code = some "code" }

abbrev user : User
user = record {
  id = 1;
  username = "bob";
  password = none;
  email = "b@c.d";
  created_at = 1;
  updated_at = 1;
  is_deleted = false;
  confirmation_code = "";
  confirmation_expiration = 1;
  is_confirmed = true;
  recovery_code = none;
  recovery_expiration = none;
}

accepted_username_fits_example : (update_username "alice_1" 9 user).0 ≡ ok true
unfolding text_discrete registration_errors trim
accepted_username_fits_example =
    accepted_username_fits checks "alice_1" user 9 (inl (new_account, refl, refl))

password_rules_example :
    (login_errors checks (record { email = some " a@b.c"; password = some "secret-1 " }) ≡ [])
    × (login_errors checks (record { email = some "a@b.c"; password = some "abc" })
        ≡ "password" ∷ [])
unfolding registration_errors text_discrete trim new_password_errors
password_rules_example =
    password_rules checks new_account short_password "abc" "a@b.c" refl refl refl refl

abbrev errors : List ValidationError
errors =
    record { property = "username"; constraints = some ("too short" ∷ "bad" ∷ []) }
    ∷ record { property = "profile"; constraints = none }
    ∷ []

one_text : custom_errors errors ≡ record { field = "username"; text = "too short" } ∷ []
one_text = refl

abbrev profile : ProfileDto
profile = record {
  username = some "alice_1";
  first_name = some "Ann";
  last_name = some "Ли";
  birth_date = some "29.02.2000";
  country = none;
  city = none;
  about_me = some "I \\o/ [ok]";
}

profile_passes : create_profile_errors checks profile ≡ []
unfolding create_profile_errors text_discrete
profile_passes = refl

profile_refused :
    update_profile_errors checks
      (record profile { username = none; first_name = some "Ann3"; birth_date = some "29.2.2000" })
    ≡ "firstName" ∷ "birthDate" ∷ []
unfolding update_profile_errors text_discrete
profile_refused = refl
