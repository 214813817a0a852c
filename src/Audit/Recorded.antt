-- ===== src/Audit/Recorded.antt =====
-- audit/audit.go: what the middleware does to a response, and the status it records.
use api_security_sdk.Common.{
  ℕ, ◌≤◌, ◌↔◌, eq_iff, String, ◌≡◌, refl, ap, arith, Bool, true, Option, none, some, List, [], ◌∷◌,
  ◌∙◌, All,
}
use api_security_sdk.Common.Values.{other}
use api_security_sdk.Http.{
  Request, Response, Sent, write_header, write, set_header, add_header, del_header,
}
use api_security_sdk.Audit.{Logger, Context, with_logger}
use api_security_sdk.Audit.Middleware.{
  Call, set, add, del, status, body, call, call_all, StatusRecorder, record_call, record_all,
  request_event, event_type_for_status, Handler, is_auto, middleware,
}

record_call-call :
    (c : Call) (r : StatusRecorder) → (record_call c r).response_writer ≡ call c r.response_writer
unfolding record_call call
record_call-call (set name value) r = refl
record_call-call (add name value) r = refl
record_call-call (del name) r = refl
record_call-call (status n) r = refl
record_call-call (body text) r = refl

pub record_all-call_all :
    (calls : List Call) (r : StatusRecorder)
    → (record_all calls r).response_writer ≡ call_all calls r.response_writer
unfolding record_all call_all
record_all-call_all [] r = refl
record_all-call_all (c ∷ cs) r =
    record_all-call_all cs (record_call c r) ∙ ap (call_all cs) (record_call-call c r)

-- The last status of a handler's calls, and the one that its client gets: the first, or 200 where a
-- body comes before or no call sends one.
unfoldable pub last_status : ℕ → List Call → ℕ
last_status n [] = n
last_status n (status m ∷ cs) = last_status m cs
last_status n (_ ∷ cs) = last_status n cs

unfoldable pub first_status : List Call → ℕ
first_status [] = 200
first_status (status n ∷ cs) = n
first_status (body text ∷ cs) = 200
first_status (_ ∷ cs) = first_status cs

-- The status of a response that the handler has left; net/http sends 200 where there is none.
unfoldable pub client_status : Response → ℕ
client_status w = elim w.sent [ none ↦ 200 | some s ↦ s.status ]

recorded-record_all :
    (calls : List Call) (r : StatusRecorder)
    → (record_all calls r).recorded ≡ last_status r.recorded calls
unfolding record_all record_call last_status
recorded-record_all [] r = refl
recorded-record_all (set name value ∷ cs) r =
    recorded-record_all cs (record_call (set name value) r)
recorded-record_all (add name value ∷ cs) r =
    recorded-record_all cs (record_call (add name value) r)
recorded-record_all (del name ∷ cs) r = recorded-record_all cs (record_call (del name) r)
recorded-record_all (status n ∷ cs) r = recorded-record_all cs (record_call (status n) r)
recorded-record_all (body text ∷ cs) r = recorded-record_all cs (record_call (body text) r)

call-sent : (c : Call) (w : Response) (out : Sent) → w.sent ≡ some out → (call c w).sent ≡ some out
unfolding call set_header add_header del_header write_header write
call-sent (set name value) w out gone = gone
call-sent (add name value) w out gone = gone
call-sent (del name) w out gone = gone
call-sent (status n) w out gone = ground (arith, gone)
call-sent (body text) w out gone = ground (arith, gone)

call_all-sent :
    (calls : List Call) (w : Response) (out : Sent)
    → w.sent ≡ some out
    → client_status (call_all calls w) ≡ out.status
unfolding call_all client_status
call_all-sent [] w out gone = ground (arith, gone)
call_all-sent (c ∷ cs) w out gone = call_all-sent cs (call c w) out (call-sent c w out gone)

client_status-call_all :
    (calls : List Call) (w : Response)
    → w.sent ≡ none
    → client_status (call_all calls w) ≡ first_status calls
unfolding call_all call first_status client_status set_header add_header del_header write_header
    write
client_status-call_all [] w fresh = ground (arith, fresh)
client_status-call_all (set name value ∷ cs) w fresh =
    client_status-call_all cs (set_header name value w) fresh
client_status-call_all (add name value ∷ cs) w fresh =
    client_status-call_all cs (add_header name value w) fresh
client_status-call_all (del name ∷ cs) w fresh = client_status-call_all cs (del_header name w) fresh
client_status-call_all (status n ∷ cs) w fresh =
    call_all-sent cs (write_header n w) (record { status = n; headers = w.header })
      (ground (arith, fresh))
client_status-call_all (body text ∷ cs) w fresh =
    call_all-sent cs (write text w) (record { status = 200; headers = w.header })
      (ground (arith, fresh))

-- A call that sends no status, and one that sends nothing.
unfoldable pub IsQuiet : Call → Type 0
IsQuiet (status n) = ⊥
IsQuiet _ = Unit

unfoldable pub IsHeader : Call → Type 0
IsHeader (status n) = ⊥
IsHeader (body text) = ⊥
IsHeader _ = Unit

-- The calls of a handler that sends its status at most once, and before the body.
pub data OneStatus : ℕ → List Call → Type 0 where
  silent : {cs : List Call} → All IsQuiet cs → OneStatus 200 cs
  sends : {n : ℕ} {cs : List Call} → All IsQuiet cs → OneStatus n (status n ∷ cs)
  header : {n : ℕ} {c : Call} {cs : List Call} → IsHeader c → OneStatus n cs → OneStatus n (c ∷ cs)

last_status-quiet : (n : ℕ) (cs : List Call) → All IsQuiet cs → last_status n cs ≡ n
unfolding last_status IsQuiet
last_status-quiet n [] _ = refl
last_status-quiet n (set name value ∷ cs) (_, quiet) = last_status-quiet n cs quiet
last_status-quiet n (add name value ∷ cs) (_, quiet) = last_status-quiet n cs quiet
last_status-quiet n (del name ∷ cs) (_, quiet) = last_status-quiet n cs quiet
last_status-quiet n (status m ∷ cs) (loud, _) = absurd loud
last_status-quiet n (body text ∷ cs) (_, quiet) = last_status-quiet n cs quiet

first_status-quiet : (cs : List Call) → All IsQuiet cs → first_status cs ≡ 200
unfolding first_status IsQuiet
first_status-quiet [] _ = refl
first_status-quiet (set name value ∷ cs) (_, quiet) = first_status-quiet cs quiet
first_status-quiet (add name value ∷ cs) (_, quiet) = first_status-quiet cs quiet
first_status-quiet (del name ∷ cs) (_, quiet) = first_status-quiet cs quiet
first_status-quiet (status m ∷ cs) (loud, _) = absurd loud
first_status-quiet (body text ∷ cs) (_, quiet) = refl

OneStatus-agrees :
    {n : ℕ} {cs : List Call} → OneStatus n cs → (first_status cs ≡ n) × (last_status 200 cs ≡ n)
unfolding first_status last_status IsHeader
OneStatus-agrees (silent {cs} quiet) = (first_status-quiet cs quiet, last_status-quiet 200 cs quiet)
OneStatus-agrees (sends {n} {cs} quiet) = (refl, last_status-quiet n cs quiet)
OneStatus-agrees (header {c = set name value} _ rest) = OneStatus-agrees rest
OneStatus-agrees (header {c = add name value} _ rest) = OneStatus-agrees rest
OneStatus-agrees (header {c = del name} _ rest) = OneStatus-agrees rest
OneStatus-agrees (header {c = status n} loud _) = absurd loud
OneStatus-agrees (header {c = body text} writes _) = absurd writes

module _ {S : Type 0} (split_host : String → Option String) (clock : S → ℕ) (l : Logger S)
    (ctx : Context S) (next : Handler S) (r : Request) (w : Response) (s : S) where
  -- What the client gets does not depend on the logger, its answers or its state, nor on whether
  -- requests are logged: it is what the handler's own calls make of the response.
  pub middleware_transparent :
      (log_requests : List Bool)
      → (middleware split_host clock l log_requests ctx next r w s).0
        ≡ call_all ((next (with_logger ctx l) r s).0) w
  unfolding middleware
  middleware_transparent log_requests = ground (
    arith,
    record_all-call_all ((next (with_logger ctx l) r s).0)
        (record { response_writer = w; recorded = 200 }),
  )

  -- Where requests are logged and nothing has gone out before, the event of the request carries the
  -- last status that the handler sends, while the client gets the first.
  pub logs_last_status :
      (more : List Bool)
      → w.sent ≡ none
      → let (calls, s') = next (with_logger ctx l) r s in
        let (w', s'') = middleware split_host clock l (true ∷ more) ctx next r w s in
        (client_status w' ≡ first_status calls)
        × (s'' ≡ (l.log s' (request_event split_host (clock s') r (last_status 200 calls))).1)
  unfolding middleware is_auto
  logs_last_status more fresh =
      let calls = (next (with_logger ctx l) r s).0 in
      let s' = (next (with_logger ctx l) r s).1 in
      let rw0 : StatusRecorder = record { response_writer = w; recorded = 200 } in
      (
        ap client_status (record_all-call_all calls rw0) ∙ client_status-call_all calls w fresh,
        ap (λ n. (l.log s' (request_event split_host (clock s') r n)).1)
            (recorded-record_all calls rw0),
      )

  -- Where requests are logged, nothing has gone out before and the handler sends its status at most
  -- once and before the body, the event of the request carries the status n that the client gets:
  -- as "status" in its metadata, and with the type and the result of a denial exactly from 400 on.
  pub logs_client_status :
      (more : List Bool) (n : ℕ)
      → w.sent ≡ none
      → OneStatus n ((next (with_logger ctx l) r s).0)
      → let s' = (next (with_logger ctx l) r s).1 in
        let (w', s'') = middleware split_host clock l (true ∷ more) ctx next r w s in
        let e = request_event split_host (clock s') r n in
        (client_status w' ≡ n)
        × (s'' ≡ (l.log s' e).1)
        × (e.meta ≡ ("status", other 0 n) ∷ [])
        × ((e.type ≡ "authz.access_denied") ↔ (400 ≤ n))
        × ((e.result ≡ "deny") ↔ (400 ≤ n))
  unfolding request_event event_type_for_status
  logs_client_status more n fresh once =
      let calls = (next (with_logger ctx l) r s).0 in
      let s' = (next (with_logger ctx l) r s).1 in
      let (sent, logged) = logs_last_status more fresh in
      let (first, last) = OneStatus-agrees once in
      (
        sent ∙ first,
        logged ∙ ap (λ m. (l.log s' (request_event split_host (clock s') r m)).1) last,
        refl,
        ground (arith, eq_iff "authz.access_granted" "authz.access_denied"),
        ground (arith, eq_iff "allow" "deny"),
      )
