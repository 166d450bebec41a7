-- ===== src/Lib.antt =====
-- A model of Wonderwall, a reverse proxy that logs users in by OpenID Connect and keeps their
-- tokens in sessions on the server.
--
-- A request for a login (pkg/openid/client/login.go) is answered with a redirect to the provider
-- and an encrypted cookie; the callback (login_callback.go) compares the cookie with the request,
-- redeems the tokens and creates a session (pkg/session/handler.go). The browser gets the key of
-- the session in an encrypted cookie (pkg/cookie), the store, in memory or in Redis
-- (pkg/session/store_*.go), its encrypted data (pkg/session/data.go). Each proxied request asks the
-- session handler for the access token; the handler refreshes tokens that are about to expire,
-- under a lock on the session (pkg/session/lock.go) and by a grant of the OpenID client
-- (pkg/openid/client/client.go). The routes (pkg/handler/api) and the reverse proxy
-- (pkg/handler/reverseproxy) put these parts together.
--
-- Base: errors as values (Results), functions with effects as functions from a state of the world
-- to a result and a state (Action), `retry.Do` of go-retry as a record whose runs are those that it
-- documents (Retry), 64-bit integers with their wrap-around written out (Int), Boolean tests and
-- lists.
-- Http: what the code uses of net/http, net/url and base64.
-- Random: pkg/strings/generator.go.
-- Slashes: two functions of the package strings.
-- Cookie: pkg/cookie/cookie.go, options.go.
-- Crypto/Crypter: pkg/crypto/crypter.go.
-- OpenId/Token: pkg/jwt/jwt.go, pkg/openid/tokens.go, response.go.
-- OpenId/Config: pkg/openid/config and pkg/openid/scopes.
-- OpenId/Client: pkg/openid/client (Login, Callback, Logout, Grant).
-- OpenId/Keys: pkg/openid/provider/provider.go, its lock as the order of the calls.
-- Loginstatus: pkg/loginstatus/loginstatus.go.
-- Middleware: pkg/middleware.
-- Api: pkg/handler/handler_standard.go; Api/Answers: what a handler does to its response, which is
-- a list of cookies and an answer.
-- Api/Login, LoginCallback, Logout, Sessions and Proxy: the packages under pkg/handler/api and
-- pkg/handler/reverseproxy, each handler from its first call to its answer; their children have
-- what is proved of them. `v, err := f(); if err != nil { fail; return }; rest` is written
-- `on_error f fail λ v. rest`.
-- Session/Metadata and Session/Data: pkg/session/data.go, each reading of the clock an argument or
-- an action.
-- Session/Store: the interface of pkg/session/store.go as a record with a contract; Memory and
-- Redis implement it; Redis/Locks: the lock of a session, a key beside those of the sessions.
-- Session/Id and Session/Handler: pkg/session/handler.go; Handler/Refresh has Refresh, GetOrRefresh
-- and GetAccessToken, its children what is proved of them.
-- Handler/Keeping and Isolation, and Api/Isolation: which entries of the store a call leaves alone.
-- Base/Ensures: actions that keep a property of the world; Handler/Ownership, Api/Ownership and
-- Router/Ownership use it for the property that each entry is data of the session of its key, and
-- that only the entries of the request change; Router/Histories and Isolation have what follows for
-- a server.
-- Handler/Interleavings: refreshes of one session that run at once, as steps of numbered requests,
-- each step a call that Refresh makes; Locks, Safety and Exclusion have what the lock brings, Steps
-- and Simulation that Refresh takes these steps.
-- InRedis takes the store and the lock to be those in Redis, where the lock does not expire while it is
-- held; the lock of the store in memory (NoOpLock) excludes nobody.
-- Handler/Preservation: what the calls without the store keep. Except in Interleavings, requests
-- are served one after another; what others do to the store in between, and while a call waits to
-- be tried again, is a relation of the retrier.
-- Redirect: pkg/handler/url/url.go.
-- Ingress: pkg/ingress/ingress.go.
-- AutoLogin: pkg/handler/autologin/autologin.go.
-- ErrorHandler: pkg/handler/error/error.go.
-- Router: pkg/router and the methods of pkg/handler/handler_standard.go; Ingress/Parsing and Paths:
-- what the ingresses and the prefixes of the routes have.
-- Middleware/Observers: what logentry.go and prometheus.go of pkg/middleware do around a handler;
-- Metrics and Retry: pkg/metrics and pkg/retry.
-- Config: pkg/config, its flags and Initialize, with what a configuration that is returned has in
-- Config/Configured; Logging: pkg/logging.
-- Startup: cmd/wonderwall/main.go, pkg/handler/handler.go, NewStore of pkg/session/store.go and
-- pkg/openid/config/config.go; Startup/Guarantees: what a configuration that is accepted has.
-- Tests: concrete parameters, evaluations and the theorems at concrete inputs.
--
-- A definition has the name of the Go function, in lower case with underscores; a helper that
-- stands for a part of a function says which. No function needs fuel: the loop that waits for a
-- lock recurs on the sequence of events that its `select` meets, which ends since its timer fires,
-- all others on a list or a text. Libraries (AES, Redis, JSON, JWT, OAuth 2.0, URLs, the clock,
-- random bytes) are parameters, and what the code relies on is a record of laws that a theorem
-- takes.
--
-- Not modelled: how net/http and its reverse proxy parse, send and answer requests; the JSON of an
-- answer, which is the record that is encoded; how flags, the environment and the file of the
-- configuration are read; the calls by which handlers log and count logins and logouts; how chi
-- searches its routes and how it chains the middleware; the templates and the
-- server, which are glue; pkg/mock, which serves tests.
mod Base
pub mod Http
pub mod Cookie
pub mod Crypto
pub mod OpenId
pub mod Loginstatus
pub mod Random
pub mod Redirect
pub mod Middleware
mod Slashes
pub mod Ingress
pub mod AutoLogin
pub mod ErrorHandler
pub mod Api
pub mod Router
pub mod Config
pub mod Logging
pub mod Metrics
pub mod Retry
pub mod Startup
pub mod Session
mod Tests
