-- ===== src/Auth/Oauth/Repository.antt =====
-- apps/gateway/src/features/auth/infrastructure/oauth-account.repository.ts
use photer_api.Base.{
  ℕ, String, Bool, true, false, ◌&&◌, ◌||◌, Option, none, some, List, ◌==◌, ◌===◌, Action, Delegate,
  Sequence, run_update, run_create,
}

pub data ProviderType : Type 0 where
  google github : ProviderType

abbrev pub same_provider : ProviderType → ProviderType → Bool
same_provider google google = true
same_provider github github = true
same_provider _ _ = false

-- A row of `OAuthAccount`, less the date of its creation, which nothing reads.
pub record OauthAccount : Type 0 where
  pub id : ℕ
  pub user_id : ℕ
  pub provider : ProviderType
  pub provider_id : String
  pub email : String

abbrev pub is_account : ProviderType → String → OauthAccount → Bool
is_account provider provider_id a =
    same_provider a.provider provider && a.provider_id === provider_id

-- `@id` and `@@unique([provider, providerId])` of the schema.
abbrev pub same_account : OauthAccount → OauthAccount → Bool
same_account a b = b.id == a.id || is_account a.provider a.provider_id b

-- `OAuthAccountRepository`
module _ (oauth_account : Delegate OauthAccount same_account) where
  unfoldable pub find_by_provider_type_and_provider_id :
      ProviderType → String → List OauthAccount → Option OauthAccount
  find_by_provider_type_and_provider_id provider provider_id t =
      oauth_account.find_first (is_account provider provider_id) t

  unfoldable pub create :
      Sequence OauthAccount (λ a. a.id)
      → ℕ
      → ProviderType
      → String
      → String
      → Action (List OauthAccount) OauthAccount
  create keys user_id provider provider_id email t =
      run_create oauth_account
        (record {
          id = keys.next_id t;
          user_id = user_id;
          provider = provider;
          provider_id = provider_id;
          email = email;
        })
        t

  -- `upsert`
  unfoldable pub update_or_create :
      Sequence OauthAccount (λ a. a.id)
      → ℕ
      → ProviderType
      → String
      → String
      → Action (List OauthAccount) OauthAccount
  unfolding create
  update_or_create keys user_id provider provider_id email t =
      elim (oauth_account.find_first (is_account provider provider_id) t) [
        | none ↦ create keys user_id provider provider_id email t
        | some a ↦
            run_update oauth_account (is_account provider provider_id)
              (λ b. record b { email = email }) t
      ]

  unfoldable pub update_email :
      String → ProviderType → String → Action (List OauthAccount) OauthAccount
  update_email provider_id provider email =
      run_update oauth_account (is_account provider provider_id) (λ a. record a { email = email })
