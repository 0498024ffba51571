-- ===== src/Subscription.antt =====
-- apps/gateway/src/features/subscription: the subscriptions of the gateway. This file has the table
-- (infrastructure/subscription.repository.ts); Subscription/Create.antt, Subscription/Renewal.antt
-- and Subscription/Activate.antt the use cases.
pub mod Shop
pub mod Queries
pub mod Api
pub mod Create
pub mod Opening
pub mod Examples
pub mod Renewal
pub mod Switching
pub mod Activate
pub mod Upgrading
use photer_api.Base.{
  ℕ, ◌≡◌, String, Bool, true, false, not, ◌&&◌, Option, none, some, List, ltb, ◌==◌, Action,
  Delegate, Sequence, run_update, run_create, run_delete, if◌then◌else◌,
}
use photer_api.User.Repository.{AccountType}

pub data SubscriptionStatus : Type 0 where
  active upcoming pending expired canceled : SubscriptionStatus

pub data PaymentProvider : Type 0 where
  stripe paypal : PaymentProvider

pub data SubscriptionPeriod : Type 0 where
  monthly weekly daily : SubscriptionPeriod

pub record Subscription : Type 0 where
  pub id : ℕ
  pub user_id : ℕ
  pub status : SubscriptionStatus
  pub account_type : AccountType
  pub valid_until : Option ℕ
  pub auto_renewal : Bool
  pub payment_provider : PaymentProvider
  pub external_id : Option String
  pub created_at : ℕ
  pub updated_at : ℕ

abbrev pub same_subscription : Subscription → Subscription → Bool
same_subscription s t = s.id == t.id

abbrev pub is_active_status : SubscriptionStatus → Bool
is_active_status active = true
is_active_status _ = false

abbrev pub is_pending_status : SubscriptionStatus → Bool
is_pending_status pending = true
is_pending_status _ = false

-- `{ gt: date }` on a date that may be missing.
abbrev pub is_after : ℕ → Option ℕ → Bool
is_after date none = false
is_after date (some d) = ltb date d

abbrev pub has_subscription_id : ℕ → Subscription → Bool
has_subscription_id id s = s.id == id

abbrev pub is_active_sub : ℕ → Subscription → Bool
is_active_sub user_id s = s.user_id == user_id && is_active_status s.status

abbrev pub is_pending_sub : ℕ → Subscription → Bool
is_pending_sub user_id s = s.user_id == user_id && is_pending_status s.status

abbrev pub is_sub_of : ℕ → Subscription → Bool
is_sub_of user_id s = s.user_id == user_id

abbrev pub is_renewing_before : (user_id current_id now : ℕ) → Subscription → Bool
is_renewing_before user_id current_id now s =
    s.user_id == user_id
    && not (s.id == current_id)
    && is_active_status s.status
    && s.auto_renewal
    && is_after now s.valid_until

-- What `create` is given.
pub record NewSubscription : Type 0 where
  pub user_id : ℕ
  pub status : SubscriptionStatus
  pub account_type : AccountType
  pub auto_renewal : Bool
  pub payment_provider : PaymentProvider
  pub valid_until : Option ℕ
  pub external_id : Option String

abbrev pub new_row : ℕ → ℕ → NewSubscription → Subscription
new_row id now data' = record {
  id = id;
  user_id = data'.user_id;
  status = data'.status;
  account_type = data'.account_type;
  valid_until = data'.valid_until;
  auto_renewal = data'.auto_renewal;
  payment_provider = data'.payment_provider;
  external_id = data'.external_id;
  created_at = now;
  updated_at = now;
}

module _ (subscription : Delegate Subscription same_subscription) where
  unfoldable pub find_active_by_user_id : ℕ → List Subscription → Option Subscription
  find_active_by_user_id user_id = subscription.find_first (is_active_sub user_id)

  unfoldable pub find_last_active_before :
      (user_id current_subscription_id now : ℕ) → List Subscription → Option Subscription
  find_last_active_before user_id current_subscription_id now =
      subscription.find_latest (λ s. s.updated_at)
        (is_renewing_before user_id current_subscription_id now)

  unfoldable pub get_latest : ℕ → List Subscription → Option Subscription
  get_latest user_id = subscription.find_latest (λ s. s.created_at) (is_sub_of user_id)

  unfoldable pub find_pending_by_user_id : ℕ → List Subscription → Option Subscription
  find_pending_by_user_id user_id = subscription.find_first (is_pending_sub user_id)

  unfoldable pub create_subscription_row :
      Sequence Subscription (λ s. s.id)
      → NewSubscription
      → (now : ℕ) → Action (List Subscription) Subscription
  create_subscription_row ids data' now t =
      run_create subscription (new_row (ids.next_id t) now data') t

  -- `data` is the change of the named columns; the client writes the time of the update.
  unfoldable pub update_subscription :
      ℕ → (data' : Subscription → Subscription) (now : ℕ) → Action (List Subscription) Subscription
  update_subscription id data' now =
      run_update subscription (has_subscription_id id) (λ s. record (data' s) { updated_at = now })

  unfoldable pub delete_subscription : ℕ → Action (List Subscription) (Unit {0})
  delete_subscription id = run_delete subscription (has_subscription_id id)

  -- The whole row is written over the one with its key.
  unfoldable pub save_subscription : Subscription → Action (List Subscription) Subscription
  save_subscription s = run_update subscription (has_subscription_id s.id) (λ _. s)
