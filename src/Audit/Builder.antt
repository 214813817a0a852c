-- ===== src/Audit/Builder.antt =====
-- audit/audit.go: the event builder. The metadata of its event is a Go map, which its events share:
-- a reference into a heap of tables.
use api_security_sdk.Common.{ℕ, ◌+◌, String, ◌<>◌, Option, none, some, [], eqb, if◌then◌else◌}
use api_security_sdk.Common.Table.{Table, insert}
use api_security_sdk.Common.Values.{Value}
use api_security_sdk.Audit.{Event, LogEvent, Error, Context, from_context}

pub record Heap : Type 0 where
  pub next : ℕ
  pub cell : ℕ → Table Value

-- A nil map, or a reference.
abbrev pub Ref : Type 0
Ref = Option ℕ

pub record EventBuilder : Type 0 where
  pub e : Event Ref

-- `Eventf`
unfoldable pub eventf : ℕ → (type subject result : String) → EventBuilder
eventf now type subject result = record {
  e = record {
    id = "";
    type = type;
    timestamp = now;
    subject = subject;
    resource = "";
    action = "";
    result = result;
    ip = "";
    user_agent = "";
    request_id = "";
    meta = none;
  };
}

unfoldable pub with_resource : String → EventBuilder → EventBuilder
with_resource resource b = record { e = record b.e { resource = resource } }

unfoldable pub with_action : String → EventBuilder → EventBuilder
with_action action b = record { e = record b.e { action = action } }

unfoldable pub with_ip : String → EventBuilder → EventBuilder
with_ip ip b = record { e = record b.e { ip = ip } }

unfoldable pub with_request_id : String → EventBuilder → EventBuilder
with_request_id id b = record { e = record b.e { request_id = id } }

-- `b.e.Meta[key] = value`
unfoldable pub put : ℕ → String → Value → Heap → Heap
unfolding insert
put at key value h = record h {
  cell = λ n. if eqb n at then insert key value (h.cell at) else h.cell n;
}

-- `WithMeta`, which makes the map if there is none.
unfoldable pub with_meta : String → Value → Heap → EventBuilder → Heap × EventBuilder
with_meta key value h b = elim b.e.meta [
  | some at ↦ (put at key value h, b)
  | none ↦ (
    put h.next key value
        (record { next = h.next + 1; cell = λ n. if eqb n h.next then [] else h.cell n }),
    record { e = record b.e { meta = some h.next } },
  )
]

unfoldable pub build : EventBuilder → Event Ref
build b = b.e

-- An event as a logger reads it.
unfoldable pub read_event : Heap → Event Ref → LogEvent
read_event h e = record {
  id = e.id;
  type = e.type;
  timestamp = e.timestamp;
  subject = e.subject;
  resource = e.resource;
  action = e.action;
  result = e.result;
  ip = e.ip;
  user_agent = e.user_agent;
  request_id = e.request_id;
  meta = elim e.meta [ none ↦ [] | some at ↦ h.cell at ];
}

-- `EventBuilder.Log`
unfoldable pub builder_log : {S : Type 0} → Context S → Heap → EventBuilder → S → Option Error × S
builder_log ctx h b s = (from_context ctx).log s (read_event h b.e)

-- `EventBuilder.Logf`, with the texts of errors.
unfoldable pub builder_logf :
    {S : Type 0} → (Error → String) → Context S → Heap → EventBuilder → S → String × S
builder_logf show ctx h b s =
    let (answer, s') = builder_log ctx h b s in
    (elim answer [ none ↦ "" | some x ↦ "audit: failed to log event: " <> show x ], s')
