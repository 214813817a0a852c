-- ===== src/Audit/Middleware.antt =====
-- audit/audit.go: the middleware and its status recorder. A handler gets the logger of the request's
-- context and answers by a list of calls of the response writer; `split_host` is the host that
-- `net.SplitHostPort` finds, none for an error.
use api_security_sdk.Common.{
  ℕ, String, Bool, false, ◌==◌, Option, none, some, List, [], ◌∷◌, leb, before, if◌then◌else◌,
}
use api_security_sdk.Common.Values.{other}
use api_security_sdk.Http.{
  Request, Response, set_header, add_header, del_header, write_header, write,
}
use api_security_sdk.Audit.{
  LogEvent, Logger, Context, with_logger, access_granted, access_denied, allow, deny,
}

-- A call of a response writer.
pub data Call : Type 0 where
  set add : (name value : String) → Call
  del : String → Call
  status : ℕ → Call
  body : String → Call

unfoldable pub call : Call → Response → Response
call (set name value) w = set_header name value w
call (add name value) w = add_header name value w
call (del name) w = del_header name w
call (status n) w = write_header n w
call (body text) w = write text w

unfoldable pub call_all : List Call → Response → Response
unfolding call
call_all [] w = w
call_all (c ∷ cs) w = call_all cs (call c w)

-- `statusRecorder`
pub record StatusRecorder : Type 0 where
  pub response_writer : Response
  pub recorded : ℕ

-- The calls go to the wrapped writer; `WriteHeader` keeps its status.
unfoldable pub record_call : Call → StatusRecorder → StatusRecorder
unfolding call
record_call (status n) r = record {
  response_writer = write_header n r.response_writer;
  recorded = n;
}
record_call c r = record r { response_writer = call c r.response_writer }

unfoldable pub record_all : List Call → StatusRecorder → StatusRecorder
unfolding record_call
record_all [] r = r
record_all (c ∷ cs) r = record_all cs (record_call c r)

unfoldable pub remote_ip : (String → Option String) → Request → String
remote_ip split_host r =
    if r.get_header "X-Forwarded-For" == ""
    then elim (split_host r.remote_addr) [ none ↦ r.remote_addr | some host ↦ host ]
    else before b',' (r.get_header "X-Forwarded-For")

unfoldable pub event_type_for_status : ℕ → String
event_type_for_status n = if leb 400 n then access_denied else access_granted

-- Go's type `int`.
abbrev int_type : ℕ
int_type = 0

-- The event of a request.
unfoldable pub request_event : (String → Option String) → ℕ → Request → ℕ → LogEvent
unfolding remote_ip event_type_for_status
request_event split_host now r n = record {
  id = "";
  type = event_type_for_status n;
  timestamp = now;
  subject = "";
  resource = r.path;
  action = r.method;
  result = if leb 400 n then deny else allow;
  ip = remote_ip split_host r;
  user_agent = r.get_header "User-Agent";
  request_id = r.get_header "X-Request-Id";
  meta = ("status", other int_type n) ∷ [];
}

abbrev pub Handler : Type 0 → Type 0
Handler S = Context S → Request → S → List Call × S

-- `len(logRequests) > 0 && logRequests[0]`
unfoldable pub is_auto : List Bool → Bool
is_auto [] = false
is_auto (b ∷ _) = b

module _ {S : Type 0} (split_host : String → Option String) (clock : S → ℕ) (l : Logger S)
    (log_requests : List Bool) where
  -- What goes out, and the world behind the handler and the log.
  unfoldable pub middleware : Context S → Handler S → Request → Response → S → Response × S
  unfolding with_logger request_event
  middleware ctx next r w s =
      let (calls, s') = next (with_logger ctx l) r s in
      let rw' = record_all calls (record { response_writer = w; recorded = 200 }) in
      if is_auto log_requests
      then (rw'.response_writer, (l.log s' (request_event split_host (clock s') r rw'.recorded)).1)
      else (call_all calls w, s')
