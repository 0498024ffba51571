-- ===== src/User/Examples.antt =====
-- The change of a name, for two users.
use photer_api.Base.{
  ℕ, ◌+◌, refl, String, false, none, some, List, [], ◌∷◌, arith, Delegate, text_discrete,
  ne_of_test,
}
use photer_api.Base.Prisma.Memory.{list_delegate}
use photer_api.User.{User}
use photer_api.User.Repository.{UserRow, personal, same_user}
use photer_api.User.Service.{update_username_of}
use photer_api.User.Service.Usernames.{UniqueNames, update_username_of-UniqueNames}

abbrev users : Delegate UserRow same_user
users = list_delegate same_user

abbrev row : ℕ → String → UserRow
row id name = record {
  id = id;
  username = name;
  password = some "hash";
  email = "a@b.c";
  created_at = 10;
  is_deleted = false;
  updated_at = 10;
  account_type = personal;
  email_confirmation = none;
  password_recovery = some (record { recovery_code = "code"; expiration_date = 9000 });
}

abbrev table : List UserRow
table = row 1 "alice" ∷ row 2 "bobby" ∷ []

abbrev alice : User
alice = record {
  id = 1;
  username = "alice";
  password = some "hash";
  email = "a@b.c";
  created_at = 10;
  updated_at = 10;
  is_deleted = false;
  confirmation_code = "c";
  confirmation_expiration = 20;
  is_confirmed = false;
  recovery_code = some "code";
  recovery_expiration = some 9000;
}

abbrev clock : ℕ → ℕ
clock i = i + 100

table-UniqueNames : UniqueNames table
unfolding text_discrete
table-UniqueNames a b ha hb e = ground (arith, ha, hb, e, ne_of_test "alice" "bobby" refl)

update_username_of-UniqueNames_example :
    UniqueNames (update_username_of users 1 "carol" clock table).1
update_username_of-UniqueNames_example =
    update_username_of-UniqueNames users 1 "carol" clock table table-UniqueNames
