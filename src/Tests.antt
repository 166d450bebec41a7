-- ===== src/Tests.antt =====
-- Concrete parameters, tests of the definitions by evaluation, and the theorems at concrete inputs.
mod Codecs
mod World
mod Sessions
mod Renewals
mod Laws
mod RedisServer
mod Flows
mod Handlers
mod Endpoints
mod Logins
mod Errors
mod Starts
mod Interleavings
mod Servers
mod Routes
