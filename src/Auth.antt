-- ===== src/Auth.antt =====
-- apps/gateway/src/features/auth and the services of apps/gateway/src/core that it calls.
pub mod Tokens
pub mod Sessions
pub mod Accounts
pub mod Registration
pub mod Recovery
pub mod Oauth
pub mod Validation
pub mod Api
