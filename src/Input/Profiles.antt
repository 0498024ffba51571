-- ===== src/Input/Profiles.antt =====
-- The DTOs of apps/gateway/src/features/profile/api/dto/input and content/post/api/dto/input.
use photer_api.Base.{
  ℕ, String, Bool, false, ◌&&◌, ◌||◌, Option, List, [], ◌∷◌, leb, ◌==◌, codes, every, is_space,
}
use photer_api.Input.{ClassValidator, is_given, optional, trimmed, failing, is_word_char, every_one}

-- A form of both DTOs; the update may leave the names out.
pub record ProfileDto : Type 0 where
  pub username : Option String
  pub first_name : Option String
  pub last_name : Option String
  pub birth_date : Option String
  pub country : Option String
  pub city : Option String
  pub about_me : Option String

-- `[A-Za-zА-Яа-я]`
abbrev pub is_letter : ℕ → Bool
is_letter c =
    (leb b'A' c && leb c b'Z') || (leb b'a' c && leb c b'z') || (leb 0x410 c && leb c 0x44F)

abbrev pub is_digit : ℕ → Bool
is_digit c = leb b'0' c && leb c b'9'

abbrev pub is_among : ℕ → List ℕ → Bool
is_among c [] = false
is_among c (x ∷ xs) = c == x || is_among c xs

-- `[\w\sА-Яа-яЁё!@#$%^&*(),.?":{}|<>+=\[\]\\/;'№~-]`
abbrev pub is_about_char : ℕ → Bool
is_about_char c =
    is_word_char c
    || is_space c
    || (leb 0x410 c && leb c 0x44F)
    || c == 0x401
    || c == 0x451
    || c == 0x2116
    || is_among c (codes "!@#$%^&*(),.?\":{}|<>+=[]\\/;'~-")

abbrev day_digits : ℕ → ℕ → Bool
day_digits a b =
    (a == b'0' && leb b'1' b && leb b b'9')
    || (leb b'1' a && leb a b'2' && is_digit b)
    || (a == b'3' && leb b'0' b && leb b b'1')

abbrev month_digits : ℕ → ℕ → Bool
month_digits a b =
    (a == b'0' && leb b'1' b && leb b b'9') || (a == b'1' && leb b'0' b && leb b b'2')

-- `^(0[1-9]|[12][0-9]|3[01])\.(0[1-9]|1[012])\.\d{4}$`
abbrev pub is_date_format : List ℕ → Bool
is_date_format (a ∷ b ∷ p ∷ c ∷ d ∷ q ∷ e ∷ f ∷ g ∷ h ∷ []) =
    day_digits a b
    && p == b'.'
    && month_digits c d
    && q == b'.'
    && is_digit e
    && is_digit f
    && is_digit g
    && is_digit h
is_date_format _ = false

module _ (v : ClassValidator) where
  abbrev pub is_profile_username : String → Bool
  is_profile_username s = v.is_length 6 30 s && every_one is_word_char s

  abbrev pub is_name : String → Bool
  is_name s = v.is_length 1 50 s && every_one is_letter s

  abbrev pub is_birth_date : String → Bool
  is_birth_date s = is_date_format (codes s) && v.is_min_age s

  abbrev pub is_about_me : String → Bool
  is_about_me s = v.is_length 0 200 s && every is_about_char (codes s)

  -- The fields that both DTOs make optional.
  abbrev pub optional_errors : ProfileDto → List String
  optional_errors d =
      failing "birthDate" (optional is_birth_date d.birth_date)
        (failing "aboutMe" (optional is_about_me d.about_me) [])

  unfoldable pub create_profile_errors : ProfileDto → List String
  create_profile_errors d = failing "username" (is_given is_profile_username d.username) (
      failing "firstName" (is_given is_name d.first_name)
        (failing "lastName" (is_given is_name d.last_name) (optional_errors d)))

  unfoldable pub update_profile_errors : ProfileDto → List String
  update_profile_errors d = failing "username" (optional is_profile_username d.username) (
      failing "firstName" (optional is_name d.first_name)
        (failing "lastName" (optional is_name d.last_name) (optional_errors d)))

  unfoldable pub create_post_errors : (description : Option String) → List String
  create_post_errors description =
      failing "description" (optional (v.is_length 0 500) (trimmed description)) []

  unfoldable pub update_post_errors : (description : Option String) → List String
  update_post_errors description =
      failing "description" (is_given (v.is_length 0 500) (trimmed description)) []
