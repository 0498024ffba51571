-- ===== src/Auth/Oauth/Returning.antt =====
-- The rows of a login through a provider, and the login of an account that is known.
use photer_api.Base.{
  ℕ, ◌≡◌, ◌≢◌, refl, sym, ◌∙◌, String, true, false, some, Option, List, [], ◌∷◌, ◌&&◌, arith, ok,
  Delegate, Sequence, DateFns, All, Has, any, change, ◌===◌,
}
use photer_api.Base.Prisma.Calls.{find_first_hit, run_update_hit}
use text.Mathlib.TextLemmas.{cons-ne-nil, append_cancel_left, append-nil}
use photer_api.Payments.Text.{decimal}
use photer_api.Auth.Accounts.Plain.{same_text}
use photer_api.User.Repository.{UserRow, same_user, has_email, with_confirmation, map_to_domain}
use photer_api.User.Repository.Reads.{find_by_email_lem}
use photer_api.Auth.Accounts.{Transporter}
use photer_api.Auth.Oauth.Repository.{
  ProviderType, google, github, same_provider, OauthAccount, same_account, is_account, update_email,
  find_by_provider_type_and_provider_id,
}
use photer_api.Auth.Oauth.{OauthState, numbered, handle_oauth_login}

-- A name with a number behind it is another name.
pub numbered-ne : (name : String) (draw : ℕ) → (numbered name draw === name) ≡ false
numbered-ne name draw =
    let differs : numbered name draw ≢ name = λ p.
      cons-ne-nil "-" (decimal draw)
        (append_cancel_left name (String.◌∷◌ "-" (decimal draw)) "" (p ∙ sym (append-nil name))) in
    ground arith

own_provider : (p : ProviderType) (id : String) → (same_provider p p && id === id) ≡ true
own_provider google id = same_text id
own_provider github id = same_text id

pub unlinked :
    (a : OauthAccount) (t : List OauthAccount)
    → All (λ b. b.id ≢ a.id) t
    → All (λ b. is_account a.provider a.provider_id b ≡ false) t
    → any (same_account a) t ≡ false
unlinked a [] h k = refl
unlinked a (x ∷ xs) h k = ground (arith, h, k, unlinked a xs h.1 k.1)

module _ (account_keys : Sequence OauthAccount (λ a. a.id)) (provider : ProviderType)
    (provider_id email : String) where
  abbrev pub linked : ℕ → List OauthAccount → OauthAccount
  linked user_id t = record {
    id = account_keys.next_id t;
    user_id = user_id;
    provider = provider;
    provider_id = provider_id;
    email = email;
  }

  pub linked-is_account :
      (user_id : ℕ) (t : List OauthAccount)
      → is_account provider provider_id (linked user_id t) ≡ true
  linked-is_account user_id t = own_provider provider provider_id

module _ (user : Delegate UserRow same_user) (keys : Sequence UserRow (λ r. r.id)) (dates : DateFns)
    (oauth_account : Delegate OauthAccount same_account)
    (account_keys : Sequence OauthAccount (λ a. a.id)) (transporter : Transporter)
    (provider : ProviderType) (provider_id email : String) where
  -- The login of a user with the address: an account of the provider is updated, and nothing else.
  pub again :
      (username display_name : Option String) (uuid : String) (draw : ℕ) (now : ℕ → ℕ)
      (s : OauthState) (a : OauthAccount) {r : UserRow}
      → user.find_first (has_email email) s.accounts.users ≡ some r
      → Has a s.oauth_accounts
      → is_account provider provider_id a ≡ true
      → handle_oauth_login user keys dates oauth_account account_keys transporter provider
          provider_id email username display_name uuid draw now s
        ≡ (
          ok (some (map_to_domain (now 0) (with_confirmation r))),
          record s {
            oauth_accounts =
                change
                  (is_account provider provider_id)
                  (λ b. record b { email = email })
                  s.oauth_accounts;
          },
        )
  unfolding handle_oauth_login find_by_provider_type_and_provider_id update_email
  again username display_name uuid draw now s a {r} e h k =
      let (x, q, _, _) =
        find_first_hit oauth_account (is_account provider provider_id) s.oauth_accounts h k in
      ground (
        arith,
        find_by_email_lem user (now 0) s.accounts.users email e,
        run_update_hit oauth_account (is_account provider provider_id)
            (λ b. record b { email = email }) s.oauth_accounts q,
      )
