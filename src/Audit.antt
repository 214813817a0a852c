-- ===== src/Audit.antt =====
-- audit/audit.go: events, loggers and the logger of a context.
-- A logger acts on a state of the world, which also holds the clock; a time is a number of
-- nanoseconds, 0 the zero time. encoding/json is the argument `marshal`, without HTML escapes, and
-- the writer `write`.
pub mod Builder
pub mod Middleware
pub mod Database
pub mod Loggers
pub mod Recorded
pub mod Columns
use api_security_sdk.Common.{
  ℕ, String, ◌<>◌, Bool, true, false, Option, none, some, List, [], ◌∷◌, Result, ok, err, eqb,
  if◌then◌else◌,
}
use api_security_sdk.Common.Table.{Table}
use api_security_sdk.Common.Values.{Value}

-- The event types.
abbrev pub login : String
login = "auth.login"

abbrev pub login_failed : String
login_failed = "auth.login_failed"

abbrev pub logout : String
logout = "auth.logout"

abbrev pub mfa_success : String
mfa_success = "auth.mfa_success"

abbrev pub mfa_failed : String
mfa_failed = "auth.mfa_failed"

abbrev pub token_issued : String
token_issued = "token.issued"

abbrev pub token_verified : String
token_verified = "token.verified"

abbrev pub token_refreshed : String
token_refreshed = "token.refreshed"

abbrev pub token_revoked : String
token_revoked = "token.revoked"

abbrev pub token_expired : String
token_expired = "token.expired"

abbrev pub token_invalid : String
token_invalid = "token.invalid"

abbrev pub api_key_issued : String
api_key_issued = "apikey.issued"

abbrev pub api_key_used : String
api_key_used = "apikey.used"

abbrev pub api_key_revoked : String
api_key_revoked = "apikey.revoked"

abbrev pub api_key_invalid : String
api_key_invalid = "apikey.invalid"

abbrev pub access_granted : String
access_granted = "authz.access_granted"

abbrev pub access_denied : String
access_denied = "authz.access_denied"

abbrev pub rate_limited : String
rate_limited = "rate.limited"

abbrev pub password_changed : String
password_changed = "account.password_changed"

abbrev pub password_reset : String
password_reset = "account.password_reset"

abbrev pub account_locked : String
account_locked = "account.locked"

abbrev pub account_unlocked : String
account_unlocked = "account.unlocked"

abbrev pub allow : String
allow = "allow"

abbrev pub deny : String
deny = "deny"

abbrev pub unknown : String
unknown = "unknown"

-- `Event`, over what stands for its metadata: a table, or a reference to one.
pub record Event (M : Type 0) : Type 0 where
  pub id : String
  pub type : String
  pub timestamp : ℕ
  pub subject : String
  pub resource : String
  pub action : String
  pub result : String
  pub ip : String
  pub user_agent : String
  pub request_id : String
  pub meta : M

abbrev pub LogEvent : Type 0
LogEvent = Event (Table Value)

pub data Error : Type 0 where
  json_failed write_failed insert_failed unreachable not_accessible query_failed scan_failed
        rows_failed :
      String → Error

-- The interface `Logger`; none is no error.
pub record Logger (S : Type 0) : Type 0 where
  pub log : S → LogEvent → Option Error × S

-- The time of the clock for an event without one.
unfoldable pub stamp : {M : Type 0} → ℕ → Event M → Event M
stamp now e = if eqb e.timestamp 0 then record e { timestamp = now } else e

-- A JSON encoder keeps the first error of its writer.
pub record JsonLogger (W : Type 0) : Type 0 where
  pub w : W
  pub failed : Option Error

unfoldable pub new_json_logger : {W : Type 0} → W → JsonLogger W
new_json_logger w = record { w = w; failed = none }

module _ {W : Type 0} (clock : W → ℕ) (marshal : LogEvent → Result String String)
    (write : W → String → Option String × W) where
  -- `json.Encoder.Encode`: the line goes out with a line break.
  unfoldable pub encode : JsonLogger W → LogEvent → Option Error × JsonLogger W
  encode l e = elim l.failed [
    | some x ↦ (some x, l)
    | none ↦ elim (marshal e) [
      | err x ↦ (some (json_failed x), l)
      | ok line ↦
          let (problem, w') = write l.w (line <> "\n") in
          elim problem [
            | none ↦ (none, record { w = w'; failed = none })
            | some x ↦ (some (write_failed x), record { w = w'; failed = some (write_failed x) })
          ]
    ]
  ]

  -- `JSONLogger.Log`
  unfoldable pub json_log : JsonLogger W → LogEvent → Option Error × JsonLogger W
  json_log l e = encode l (stamp (clock l.w) e)

  abbrev pub json_logger : Logger (JsonLogger W)
  json_logger = record { log = json_log }

unfoldable pub first_of : Option Error → Option Error → Option Error
first_of none answer = answer
first_of (some x) answer = some x

module _ {S : Type 0} where
  -- The loop of `MultiLogger.Log`.
  unfoldable pub log_each : Option Error → List (Logger S) → S → LogEvent → Option Error × S
  unfolding first_of
  log_each first [] s e = (first, s)
  log_each first (l ∷ ls) s e =
      let (answer, s') = l.log s e in log_each (first_of first answer) ls s' e

  -- `MultiLogger.Log` of a `NewMultiLogger`.
  unfoldable pub multi_log : List (Logger S) → S → LogEvent → Option Error × S
  multi_log loggers s e = log_each none loggers s e

  abbrev pub new_multi_logger : List (Logger S) → Logger S
  new_multi_logger loggers = record { log = multi_log loggers }

  unfoldable pub noop_log : S → LogEvent → Option Error × S
  noop_log s e = (none, s)

  abbrev pub noop_logger : Logger S
  noop_logger = record { log = noop_log }

-- What a context holds of this package: a logger, or none.
abbrev pub Context : Type 0 → Type 0
Context S = Option (Logger S)

unfoldable pub with_logger : {S : Type 0} → Context S → Logger S → Context S
with_logger ctx l = some l

unfoldable pub from_context : {S : Type 0} → Context S → Logger S
from_context none = noop_logger
from_context (some l) = l

-- The function `Log`.
unfoldable pub log_in : {S : Type 0} → Context S → S → LogEvent → Option Error × S
log_in ctx s e = (from_context ctx).log s e
