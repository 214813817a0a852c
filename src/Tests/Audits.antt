-- ===== src/Tests/Audits.antt =====
-- audit: loggers that keep what they were called for, a writer that fails and a builder's metadata.
use api_security_sdk.Common.{
  ℕ, zero, suc, ◌≡◌, refl, String, ◌==◌, Option, none, some, List, [], ◌∷◌, Result, ok, arith,
  if◌then◌else◌,
}
use api_security_sdk.Common.Table.{lookup}
use api_security_sdk.Common.Values.{str}
use api_security_sdk.Audit.{
  Event, LogEvent, Error, write_failed, insert_failed, Logger, JsonLogger, new_json_logger,
  json_log, multi_log, log_each, encode, new_multi_logger, login, allow,
}
use api_security_sdk.Audit.Builder.{Heap, Ref, EventBuilder, eventf, with_meta, build, read_event}
use api_security_sdk.Audit.Loggers.{
  Delivers, first_error, multi_log-Delivers, multi_log-nested, write_error_silences, log_events,
  IsRef, IsApart, lookup-with_meta, with_meta_elsewhere, with_meta_changes_built,
}

abbrev event : LogEvent
event = record {
  id = "";
  type = login;
  timestamp = 7;
  subject = "user-1";
  resource = "";
  action = "";
  result = allow;
  ip = "10.0.0.1";
  user_agent = "";
  request_id = "";
  meta = [];
}

-- A logger that keeps its name, one that fails, and two of them.
abbrev Kept : Type 0
Kept = List String

abbrev keeper : String → Logger Kept
keeper name = record { log = λ s e. (none, name ∷ s) }

abbrev failing : String → Logger Kept
failing name = record { log = λ s e. (some (insert_failed name), name ∷ s) }

abbrev loggers : List (Logger Kept)
loggers = failing "db" ∷ keeper "file" ∷ failing "pipe" ∷ []

all_three : multi_log loggers [] event ≡ (some (insert_failed "db"), "pipe" ∷ "file" ∷ "db" ∷ [])
unfolding multi_log log_each
all_three = refl

multi_log-Delivers_example :
    (answers : List (Option Error)) × Delivers event loggers [] answers
      ((multi_log loggers [] event).1)
    × ((multi_log loggers [] event).0 ≡ first_error answers)
multi_log-Delivers_example = multi_log-Delivers loggers [] event

nested_loggers :
    multi_log (keeper "first" ∷ new_multi_logger loggers ∷ failing "last" ∷ []) [] event
    ≡ multi_log
        (keeper "first" ∷ failing "db" ∷ keeper "file" ∷ failing "pipe" ∷ failing "last" ∷ [])
        []
        event
nested_loggers = multi_log-nested (keeper "first" ∷ []) loggers (failing "last" ∷ []) [] event

-- A writer whose first write fails, and that then takes everything.
abbrev write : ℕ → String → Option String × ℕ
write zero line = (some "disk full", 1)
write (suc n) line = (none, suc (suc n))

abbrev clock : ℕ → ℕ
clock n = 5

abbrev marshal : LogEvent → Result String String
marshal e = ok (e.type)

abbrev logged : JsonLogger ℕ → Option Error × JsonLogger ℕ
logged l = json_log clock marshal write l event

write_error_silences_example :
    json_log clock marshal write
      (log_events clock marshal write (event ∷ event ∷ []) ((logged (new_json_logger 0)).1))
      event
    ≡ (some (write_failed "disk full"), (logged (new_json_logger 0)).1)
unfolding json_log new_json_logger encode
write_error_silences_example =
    write_error_silences clock marshal write (new_json_logger 0) event "disk full"
      (event ∷ event ∷ []) event refl

abbrev heap : Heap
heap = record { next = 2; cell = λ n. ("role", str "user") ∷ [] }

abbrev builder : EventBuilder
builder = record { e = record ((eventf 3 login "user-1" allow).e) { meta = some 0 } }

admin_put :
    lookup "role" (
      (read_event
        ((with_meta "role" (str "admin") heap builder).0)
        (build ((with_meta "role" (str "admin") heap builder).1))).meta)
    ≡ (if "role" == "role"
        then some (str "admin")
        else lookup "role" ((read_event heap (build builder)).meta))
admin_put = lookup-with_meta "role" (str "admin") heap builder "role"

abbrev other : Event Ref
other = record ((eventf 4 login "user-2" allow).e) { meta = some 1 }

other_untouched :
    read_event ((with_meta "role" (str "admin") heap builder).0) other ≡ read_event heap other
unfolding eventf IsRef IsApart
other_untouched =
    with_meta_elsewhere "role" (str "admin") heap builder other (omega arith)
      (λ e. absurd (omega arith))

built_changes :
    lookup "role"
      ((read_event ((with_meta "role" (str "admin") heap builder).0) (build builder)).meta)
    ≡ some (str "admin")
built_changes = with_meta_changes_built "role" (str "admin") heap builder 0 refl
