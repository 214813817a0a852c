-- ===== src/Tests/Trails.antt =====
-- audit: a request that sends two statuses, one that sends one, and rows of a database.
use api_security_sdk.Common.{
  ℕ, ◌≡◌, refl, ◌↔◌, ◌≤◌, inr, ◌⊎◌, String, true, Option, none, some, List, [], ◌∷◌, map, Result,
  ok, arith, eq_iff,
}
use api_security_sdk.Common.Table.{Table}
use api_security_sdk.Common.Values.{Value}
use api_security_sdk.Http.{Request, Response, new_response, no_body}
use api_security_sdk.Common.Int.{pos, negsuc}
use api_security_sdk.Audit.{LogEvent, insert_failed, Logger, login, allow}
use api_security_sdk.Audit.Middleware.{
  set, status, body, call_all, request_event, is_auto, record_all, Handler, middleware,
}
use api_security_sdk.Audit.Database.{
  Db, found, null_string, null_bytes, meta_json, recent_query, recent, EventMapper, new_db_logger,
  insert_args, Row, plain,
}
use api_security_sdk.Audit.Recorded.{
  first_status, last_status, client_status, IsHeader, IsQuiet, sends, header,
  middleware_transparent, logs_last_status, logs_client_status,
}
use api_security_sdk.Audit.Columns.{
  row_of_args, Written, nothing, one_more, recent-Written, IsJson, Choice, table_name, schema,
  setting, HasSchema, last_schema, last_table, new_db_logger-HasSchema,
}

abbrev event : LogEvent
event = record {
  id = "";
  type = login;
  timestamp = 7;
  subject = "user-1";
  resource = "";
  action = "";
  result = allow;
  ip = "10.0.0.1";
  user_agent = "";
  request_id = "";
  meta = [];
}

abbrev Kept : Type 0
Kept = List String

abbrev request : Request
request = record {
  method = "GET";
  path = "/admin";
  remote_addr = "10.0.0.1:4711";
  get_header = λ name. "";
  claims = none;
  api_key = none;
  body = no_body;
  content_length = pos 0;
}

abbrev split_host : String → Option String
split_host text = some "10.0.0.1"

-- A logger that keeps the types and the results of its events.
abbrev types : Logger Kept
types = record { log = λ s e. (some (insert_failed "db"), e.type ∷ e.result ∷ s) }

-- A handler that recovers after its status has gone out, and one that sends one status.
abbrev twice : Handler Kept
twice ctx r s = (status 200 ∷ body "ok" ∷ status 500 ∷ [], s)

abbrev once : Handler Kept
once ctx r s = (set "X-Trace" "1" ∷ status 404 ∷ body "gone" ∷ [], s)

abbrev no_time : Kept → ℕ
no_time s = 5

abbrev run : Handler Kept → Response × Kept
run next = middleware split_host no_time types (true ∷ []) none next request new_response []

denied : (run twice).1 ≡ "authz.access_denied" ∷ "deny" ∷ []
unfolding middleware is_auto record_all
denied = refl

sent_as_called : (run twice).0 ≡ call_all (status 200 ∷ body "ok" ∷ status 500 ∷ []) new_response
sent_as_called =
    middleware_transparent split_host no_time types none twice request new_response [] (true ∷ [])

logs_last_status_example :
    (client_status ((run twice).0) ≡ first_status (status 200 ∷ body "ok" ∷ status 500 ∷ []))
    × ((run twice).1
        ≡ (types.log [] (
            request_event split_host 5 request
              (last_status 200 (status 200 ∷ body "ok" ∷ status 500 ∷ [])))).1)
unfolding new_response
logs_last_status_example =
    logs_last_status split_host no_time types none twice request new_response [] [] refl

logs_client_status_example :
    (client_status ((run once).0) ≡ 404)
    × ((run once).1 ≡ (types.log [] (request_event split_host 5 request 404)).1)
    × ((request_event split_host 5 request 404).meta ≡ ("status", Value.other 0 404) ∷ [])
    × (((request_event split_host 5 request 404).type ≡ "authz.access_denied") ↔ (400 ≤ 404))
    × (((request_event split_host 5 request 404).result ≡ "deny") ↔ (400 ≤ 404))
unfolding new_response IsHeader IsQuiet
logs_client_status_example =
    logs_client_status split_host no_time types none once request new_response [] [] 404 refl
      (header tt (sends (tt, tt)))

abbrev wide_event : LogEvent
wide_event = record event { meta = ("status", Value.other 0 404) ∷ [] }

abbrev marshal_meta : Table Value → Result String String
marshal_meta m = ok "{\"status\":404}"

abbrev unmarshal_meta : String → Table Value
unmarshal_meta text = ("status", Value.other 0 404) ∷ []

abbrev stored : Row
stored = record {
  event_id = null_string "";
  type = login;
  timestamp = 7;
  subject = null_string "user-1";
  resource = null_string "";
  action = null_string "";
  result = null_string allow;
  ip = null_string "10.0.0.1";
  user_agent = null_string "";
  request_id = null_string "";
  meta = null_bytes "{\"status\":404}";
}

-- A database that holds the row twice.
abbrev db : Db Unit
db = record {
  exec = λ d sql args. (none, d);
  ping = λ d. none;
  query_row = λ d sql. found;
  query = λ d sql args. ok (record { rows = ok stored ∷ ok stored ∷ []; last_error = none });
}

meta_readable : (wide_event.meta ≡ []) ⊎ IsJson marshal_meta unmarshal_meta wide_event.meta
meta_readable = inr (record {
  text = "{\"status\":404}";
  encodes = refl;
  filled = λ e. absurd (ground (arith, (eq_iff "{\"status\":404}" "").1 e));
  decodes = refl;
})

twice-Written :
    Written marshal_meta unmarshal_meta (wide_event ∷ wide_event ∷ []) (ok stored ∷ ok stored ∷ [])
unfolding row_of_args insert_args meta_json
twice-Written = one_more refl meta_readable (one_more refl meta_readable nothing)

recent-Written_example :
    recent db (new_db_logger []) unmarshal_meta tt "user-1" (negsuc 4)
    ≡ (wide_event ∷ wide_event ∷ [], none)
unfolding recent_query
recent-Written_example =
    recent-Written marshal_meta unmarshal_meta db (new_db_logger []) tt "user-1" (negsuc 4)
      (wide_event ∷ wide_event ∷ []) (ok stored ∷ ok stored ∷ []) refl twice-Written

abbrev mapper : EventMapper
mapper e = plain e.type ∷ []

abbrev choices : List Choice
choices = table_name "a" ∷ schema "INSERT INTO mine VALUES ($1)" (some mapper) ∷ table_name "b" ∷ []

custom_schema_wins :
    HasSchema
      (last_table "audit_logs" choices)
      (last_schema none choices)
      (new_db_logger (map setting choices))
custom_schema_wins = new_db_logger-HasSchema choices
