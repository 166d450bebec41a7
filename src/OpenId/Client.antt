-- ===== src/OpenId/Client.antt =====
-- The OpenID client (pkg/openid/client).
pub mod Login
pub mod Logout
pub mod Grant
pub mod Callback
