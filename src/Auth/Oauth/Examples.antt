-- ===== src/Auth/Oauth/Examples.antt =====
-- Logins through a provider beside one user.
use photer_api.Base.{
  ℕ, ◌+◌, ◌≡◌, refl, String, true, false, none, some, Option, [], ◌∷◌, arith, ok, throws, rejection,
  varchar_takes, Result, Delegate, Sequence, Has, text_discrete, exact_dates,
}
use photer_api.Base.Prisma.Memory.{list_delegate, list_sequence}
use photer_api.User.Repository.{
  UserRow, personal, same_user, row_of, has_username, has_email, map_to_domain, with_confirmation,
  find_by_username, find_by_email,
}
use photer_api.Payments.Text.{decimal}
use photer_api.User.{User, create, confirm_email}
use photer_api.Auth.Accounts.Plain.{delivered}
use photer_api.Auth.Oauth.Repository.{
  google, OauthAccount, same_account, find_by_provider_type_and_provider_id,
}
use photer_api.Auth.Oauth.{
  OauthState, created_email, provider_user, username_from_provider, handle_oauth_login,
  create_user_when_registration_by_provider, local_part,
}
use photer_api.Auth.Oauth.Signing.{oauth_login_links, oauth_login_registers, oauth_login_taken_name}

abbrev users : Delegate UserRow same_user
users = list_delegate same_user

abbrev keys : Sequence UserRow (λ r. r.id)
keys = list_sequence (λ r. r.id)

abbrev links : Delegate OauthAccount same_account
links = list_delegate same_account

abbrev link_keys : Sequence OauthAccount (λ a. a.id)
link_keys = list_sequence (λ a. a.id)

abbrev alice : UserRow
alice = record {
  id = 1;
  username = "alice";
  password = some "hash";
  email = "a@b.c";
  created_at = 10;
  is_deleted = false;
  updated_at = 10;
  account_type = personal;
  email_confirmation = none;
  password_recovery = none;
}

abbrev state : OauthState
state = record { accounts = record { users = alice ∷ []; outbox = [] }; oauth_accounts = [] }

abbrev clock : ℕ → ℕ
clock i = i + 100

local_part-address : local_part "bob@c.d" ≡ "bob"
unfolding local_part
local_part-address = refl

abbrev signs_in : String → Option String → String → OauthState → Result (Option User) × OauthState
signs_in email username uuid =
    handle_oauth_login users keys exact_dates links link_keys delivered google "77" email username
      none uuid 5 clock

abbrev link : ℕ → String → OauthAccount
link user_id email = record {
  id = 1;
  user_id = user_id;
  provider = google;
  provider_id = "77";
  email = email;
}

abbrev opened : String → UserRow
opened username =
    row_of 2 (provider_user users keys exact_dates username "d@e.f" "uuid" (λ i. clock (i + 2))).1

abbrev user_of : ℕ → UserRow → Option User
user_of now r = some (map_to_domain now (with_confirmation r))

-- A name of 31 letters is not written.
long_name_refused :
    signs_in "d@e.f" (some "abcdefghijabcdefghijabcdefghijk") "uuid" state
    ≡ (throws (rejection "The provided value for the column is too long"), state)
unfolding handle_oauth_login find_by_provider_type_and_provider_id map_to_domain find_by_username
    find_by_email create_user_when_registration_by_provider create confirm_email varchar_takes
    text_discrete username_from_provider
long_name_refused = refl

oauth_login_links_example :
    let first_run = signs_in "a@b.c" (some "al") "uuid" state in
    (first_run ≡ (ok (user_of 100 alice), record state { oauth_accounts = link 1 "a@b.c" ∷ [] }))
    × (signs_in "a@b.c" (some "Al") "uuid2" first_run.1 ≡ (ok (user_of 100 alice), first_run.1))
unfolding text_discrete username_from_provider
oauth_login_links_example =
    oauth_login_links users keys exact_dates links link_keys delivered google "77" "a@b.c"
      (some "al") none "uuid" 5 clock state tt {r = alice} refl (some "Al") none "uuid2" 5 clock

oauth_login_registers_example :
    let first_run = signs_in "d@e.f" (some "bobby") "uuid" state in
    (first_run ≡ (
      ok (user_of 106 (opened "bobby")),
      record {
        accounts = record {
          users = opened "bobby" ∷ alice ∷ [];
          outbox = created_email "d@e.f" "bobby" ∷ [];
        };
        oauth_accounts = link 2 "d@e.f" ∷ [];
      },
    ))
    × (signs_in "d@e.f" (some "Bob") "uuid2" first_run.1
        ≡ (ok (user_of 100 (opened "bobby")), first_run.1))
unfolding text_discrete username_from_provider
oauth_login_registers_example =
    oauth_login_registers users keys exact_dates links link_keys delivered google "77" "d@e.f"
      (some "bobby") none "uuid" 5 clock state tt (refl, tt) (λ _ _. refl) (omega arith) (refl, tt)
      (some "Bob") none "uuid2" 5 clock

oauth_login_taken_name_example :
    let first_run = signs_in "d@e.f" (some "alice") "uuid" state in
    (x : UserRow) × Has x (alice ∷ [])
    × (has_username "alice" x ≡ true)
    × (has_email "d@e.f" x ≡ false)
    × (first_run ≡ (
      ok (user_of 106 x),
      record {
        accounts = record {
          users = opened "alice-5" ∷ alice ∷ [];
          outbox = created_email x.email x.username ∷ [];
        };
        oauth_accounts = link x.id "d@e.f" ∷ [];
      },
    ))
    × (signs_in "d@e.f" (some "alice") "uuid2" first_run.1
        ≡ (ok (user_of 100 (opened "alice-5")), first_run.1))
unfolding text_discrete username_from_provider decimal
oauth_login_taken_name_example =
    oauth_login_taken_name users keys exact_dates links link_keys delivered google "77" "d@e.f"
      (some "alice") none "uuid" 5 clock state tt (refl, tt) (λ _ _. refl) {r = alice} (omega arith)
      refl (some "alice") none "uuid2" 5 clock
