-- ===== src/Auth/Api/Examples.antt =====
-- A user signs in, renews the session and leaves.
use photer_api.Base.{
  ℕ, ◌+◌, ◌≡◌, refl, String, Option, List, true, false, none, some, [], ◌∷◌, ◌&&◌, arith, leb,
  points, codes, truthy, trim, Delegate, text_discrete, ne_of_test,
}
use photer_api.Base.Prisma.Memory.{list_delegate}
use photer_api.User.Repository.{UserRow, personal, same_user, find_by_email, map_to_domain}
use photer_api.Auth.Validation.{local_validate, validate_user}
use photer_api.Http.{errors_messages}
use photer_api.Input.{ClassValidator}
use photer_api.Input.Accounts.{login_errors}
use photer_api.Input.Pipe.{validation_reply, bad_request_reply}
use photer_api.Device.{Device, same_id}
use photer_api.Auth.Accounts.Plain.{plain_bcrypt}
use photer_api.Auth.Tokens.Plain.{plain_tokens}
use photer_api.Auth.Api.Requests.{Server, login_request, refresh_token_request, logout_request}
use photer_api.Auth.Api.Requests.Session.{session_over_http}

abbrev users : Delegate UserRow same_user
users = list_delegate same_user

abbrev devices : Delegate Device same_id
devices = list_delegate same_id

abbrev alice : UserRow
alice = record {
  id = 1;
  username = "alice";
  password = some "$secret";
  email = "a@b.c";
  created_at = 10;
  is_deleted = false;
  updated_at = 10;
  account_type = personal;
  email_confirmation = none;
  password_recovery = none;
}

abbrev phone : Device
phone = record {
  id = "phone";
  user_id = 7;
  device_name = "Pixel";
  ip = "10.0.0.1";
  iat = 3000;
  exp = 9000;
  is_deleted = false;
}

abbrev server : Server
server = record { users = alice ∷ []; devices = phone ∷ [] }

abbrev clock : ℕ → ℕ
clock i = i + 5

abbrev later : ℕ → ℕ
later i = i + 9

abbrev checks : ClassValidator
checks = record {
  is_length = λ min max s. leb min (points (codes s)) && leb (points (codes s)) max;
  is_not_empty = truthy;
  is_email = truthy;
  is_uuid = λ version s. truthy s;
  is_min_age = λ s. true;
  is_length_lem = λ min max s. refl;
  is_not_empty_lem = λ s. refl;
}

abbrev texts : String → Option (List String)
texts property = some ("invalid" ∷ [])

-- A right password of three letters, which a recovery may have set.
short_password_refused :
    login_request plain_tokens devices users checks texts plain_bcrypt "a@b.c" "abc" none "10.0.0.2"
      "Mac" "laptop" clock
      (record server { users = record alice { password = some "$abc" } ∷ [] })
    ≡ (
      record {
        status_code = 400;
        cookie = none;
        body = errors_messages (record { field = "password"; text = "invalid" } ∷ []);
      },
      record server { users = record alice { password = some "$abc" } ∷ [] },
    )
unfolding login_request login_errors trim text_discrete validation_reply bad_request_reply
    local_validate validate_user find_by_email map_to_domain
short_password_refused = refl

session_over_http_example :
    let (r1, s1) =
      login_request plain_tokens devices users checks texts plain_bcrypt "a@b.c" "secret" none
        "10.0.0.2" "Mac" "laptop" clock server in
    let (r2, s2) = refresh_token_request plain_tokens devices users r1.cookie later s1 in
    let (r3, s3) = refresh_token_request plain_tokens devices users r1.cookie later s2 in
    let (r4, s4) = logout_request plain_tokens devices users r2.cookie later s2 in
    let (r5, s5) = refresh_token_request plain_tokens devices users r2.cookie later s4 in
    let (r6, s6) = logout_request plain_tokens devices users r2.cookie later s4 in
    (r1.status_code ≡ 200)
    × (r2.status_code ≡ 200)
    × (r3.status_code ≡ 401)
    × (s3 ≡ s2)
    × (r4.status_code ≡ 204)
    × (r5.status_code ≡ 401)
    × (s5 ≡ s4)
    × (r6.status_code ≡ 500)
unfolding text_discrete login_errors trim
session_over_http_example =
    session_over_http plain_tokens devices users checks texts plain_bcrypt "a@b.c" "secret" none
      "10.0.0.2" "Mac" "laptop" clock (alice ∷ []) (phone ∷ []) {r = alice} refl refl refl
      (omega arith) refl (ne_of_test "phone" "laptop" refl, tt) later later later (ground arith)
      (ground arith) (ground arith) (ground arith) (ground arith)
