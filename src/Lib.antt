-- ===== src/Lib.antt =====
-- A verification library for the API security SDK, a set of Go packages that an HTTP service puts
-- before its handlers: who the caller is (JWT, API keys), what the caller may do (roles, policies),
-- how often, and with which response headers; the signatures, one-time passwords, password rules,
-- hashes and keys that its handlers use; and the audit log of what they did.
--
-- Which file models which package; a definition has the words of the Go name in snake_case:
--   Rbac            rbac/types.go, rbac/store.go, rbac/rbac.go; Rbac/Middleware rbac/middleware.go
--   ApiKey          apikey/apikey.go, apikey/store.go; ApiKey/Middleware the HTTP part
--   Jwt             auth/jwt: claims and blacklist; Jwt/Options options.go; Jwt/Service jwt.go
--   Auth            auth/middleware
--   Abac            abac/types.go, abac/store.go, abac/abac.go; Abac/Conditions the conditions of
--                   types.go; Abac/Middleware abac/middleware.go
--   RateLimit       ratelimit/store.go; RateLimit/Middleware ratelimit/ratelimit.go
--   Cors            cors/cors.go
--   SecureHeaders   secureheaders/secureheaders.go
--   Gin             ginmw/middleware.go
--   Reqsign         reqsign/reqsign.go
--   Jwks            auth/jwks/jwks.go: the source; Jwks/Key the entries and their keys
--   Otp             otp/totp.go; Otp/Uri the provisioning URI and the backup codes
--   Passwords       passwdpolicy/passwdpolicy.go
--   Crypto          crypto/password.go in Crypto/Password, crypto/bcrypt.go in Crypto/Bcrypt,
--                   crypto/token.go in Crypto/Token, crypto/keys.go in Crypto/Keys
--   Audit           audit/audit.go: events and loggers; Audit/Builder the event builder,
--                   Audit/Middleware the middleware; Audit/Database audit/dblogger.go
--   Http            what these use of net/http: requests, the response writer, handlers
--   Common          maps, lists, texts, integers, bytes, decimal, hexadecimal, base32 and base64,
--                   scanning by a format, Go's `any` and results with errors
--   Tests           runs at concrete inputs
-- The other files below a module hold its proofs.
--
-- How the parts meet. The middlewares call a service at the time of a request and hand the request
-- on with what they found: Auth and Gin put the claims of Jwt into it, ApiKey its key; Rbac and Abac
-- then read the subject from there. A store is a record of operations over a state, so that the
-- services are modelled for any backend, and the memory stores are instances of it. Reqsign stands on
-- its own: its transport signs what its middleware checks. Jwks gives Jwt's keyfunc its keys. Audit's
-- middleware puts a logger into the context of the request and wraps the response writer, whose calls
-- it sees; a logger is any step on a state of the world, and a multi logger runs several in turn.
--
-- State and time. A store is a value that an operation takes and gives back: each operation is one
-- step, as under its lock, and a run of operations is a sequence of steps. (`MemoryStore.Inc` of the
-- rate limiter holds two locks in turn, and is one step here.) The clock, the random source, the
-- hash and the MAC, Argon2, bcrypt, crypto/x509 and encoding/pem, the HTTP client, the database,
-- encoding/json, floating-point arithmetic, Unicode's tables and the library golang-jwt are arguments;
-- what the code relies on of them is a named hypothesis. The order in which Go ranges over a map is an
-- argument where it matters. The map that an event shares with its builder is a cell of a heap. A
-- panic is the answer `none` of an ABAC condition, and an error of its own in Otp and Crypto.
--
-- Fuel. The recursion of `roleHasPermission` runs on fuel 66: each nested call adds a new visited
-- name, and the guard ends the search at 65 of them.
--
-- Numbers. Times, durations, counts and limits are natural numbers; a priority is an integer. The
-- counters stay far below 2^63, and their overflow is not modelled. A timestamp of Reqsign is an int64,
-- a counter of Otp wraps at 2^64, and time.Since stops at the largest duration. A skew of Otp is below
-- 2^63, where its conversion to int64 is exact. The laws of the rate limiter's floating-point product
-- hold for counts up to 2^53 and a positive window.
--
-- Headers. A header's name is the spelling of the code, compared as a text; the canonical spelling of
-- net/http is not modelled.
--
-- Not modelled: the example programs, which have no logic of their own; nor two calls of a Jwks
-- source at once, one between the other's test of the delay and its fetch; nor informational statuses
-- below 200, which WriteHeader sends in addition.
pub mod Common
pub mod Rbac
pub mod ApiKey
pub mod Jwt
pub mod Http
pub mod Auth
pub mod Abac
pub mod RateLimit
pub mod Cors
pub mod SecureHeaders
pub mod Gin
pub mod Reqsign
pub mod Otp
pub mod Passwords
pub mod Crypto
pub mod Audit
pub mod Jwks
pub mod Tests
