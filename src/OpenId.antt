-- ===== src/OpenId.antt =====
-- Tokens of the OpenID provider and the client's side of the protocol (pkg/jwt, pkg/openid).
pub mod Token
pub mod Keys
pub mod Config
pub mod Client
