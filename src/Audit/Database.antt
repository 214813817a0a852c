-- ===== src/Audit/Database.antt =====
-- audit/dblogger.go: the logger of a SQL table. The database is the argument `Db`, over its state;
-- encoding/json is `marshal_meta` and `unmarshal_meta`, of which the second gives what it has filled
-- in when it fails.
use api_security_sdk.Common.{
  ℕ, suc, String, ◌<>◌, Bool, true, false, not, ◌&&◌, ◌==◌, Option, none, some, List, [], ◌∷◌,
  Result, ok, err, if◌then◌else◌,
}
use api_security_sdk.Common.Int.{ℤ, pos}
use api_security_sdk.Common.Table.{Table}
use api_security_sdk.Common.Values.{Value}
use api_security_sdk.Audit.{
  LogEvent, Error, insert_failed, unreachable, not_accessible, query_failed, scan_failed,
  rows_failed, stamp,
}

-- `sql.NullString`
pub record NullString : Type 0 where
  pub text : String
  pub valid : Bool

-- An argument of a statement.
pub data Arg : Type 0 where
  plain : String → Arg
  nullable : NullString → Arg
  at : ℕ → Arg
  int : ℤ → Arg
  any_value : Value → Arg

-- The columns of `Recent`.
pub record Row : Type 0 where
  pub event_id : NullString
  pub type : String
  pub timestamp : ℕ
  pub subject : NullString
  pub resource : NullString
  pub action : NullString
  pub result : NullString
  pub ip : NullString
  pub user_agent : NullString
  pub request_id : NullString
  pub meta : NullString

-- The rows of a query, each of which may fail to scan, and the error behind the last.
pub record Rows : Type 0 where
  pub rows : List (Result String Row)
  pub last_error : Option String

-- What a scan of one row gives.
pub data Scanned : Type 0 where
  found no_rows : Scanned
  failed : String → Scanned

pub record Db (D : Type 0) : Type 0 where
  pub exec : D → String → List Arg → Option String × D
  pub ping : D → Option String
  pub query_row : D → String → Scanned
  pub query : D → String → List Arg → Result String Rows

abbrev pub EventMapper : Type 0
EventMapper = LogEvent → List Arg

pub record DbLogger : Type 0 where
  pub table : String
  pub insert_sql : String
  pub mapper : Option EventMapper
  pub custom_schema : Bool

unfoldable pub build_insert_sql : String → String
build_insert_sql table =
    "INSERT INTO " <> table
    <> "\n\t\t(event_id, type, timestamp, subject, resource, action,\n\t\t result, ip, user_agent, request_id, meta)\n\t\tVALUES ($1, $2, $3, $4, $5, $6, $7, $8, $9, $10, $11)"

abbrev pub Setting : Type 0
Setting = DbLogger → DbLogger

unfoldable pub with_table_name : String → Setting
with_table_name name l =
    if l.custom_schema then l else record l { table = name; insert_sql = build_insert_sql name }

unfoldable pub with_custom_schema : String → Option EventMapper → Setting
with_custom_schema insert_sql mapper l = record l {
  insert_sql = insert_sql;
  mapper = mapper;
  custom_schema = true;
}

unfoldable pub apply_settings : List Setting → DbLogger → DbLogger
apply_settings [] l = l
apply_settings (o ∷ opts) l = apply_settings opts (o l)

-- `NewDBLogger`
unfoldable pub new_db_logger : List Setting → DbLogger
new_db_logger opts = apply_settings opts (record {
  table = "audit_logs";
  insert_sql = build_insert_sql "audit_logs";
  mapper = none;
  custom_schema = false;
})

unfoldable pub null_string : String → NullString
null_string s = record { text = s; valid = not (s == "") }

unfoldable pub null_bytes : String → NullString
null_bytes b =
    if b == "" then record { text = ""; valid = false } else record { text = b; valid = true }

-- The metadata as JSON; "{}" where it cannot be encoded.
unfoldable pub meta_json : (Table Value → Result String String) → Table Value → String
meta_json marshal_meta [] = ""
meta_json marshal_meta (entry ∷ meta) = elim (marshal_meta (entry ∷ meta)) [
  | err _ ↦ "{}"
  | ok text ↦ text
]

-- The eleven arguments of the default schema.
unfoldable pub insert_args : (Table Value → Result String String) → LogEvent → List Arg
insert_args marshal_meta e =
    nullable (null_string e.id)
    ∷ plain e.type
    ∷ at e.timestamp
    ∷ nullable (null_string e.subject)
    ∷ nullable (null_string e.resource)
    ∷ nullable (null_string e.action)
    ∷ nullable (null_string e.result)
    ∷ nullable (null_string e.ip)
    ∷ nullable (null_string e.user_agent)
    ∷ nullable (null_string e.request_id)
    ∷ nullable (null_bytes (meta_json marshal_meta e.meta))
    ∷ []

-- `Recent` reads 100 events where the limit is not positive.
unfoldable pub limit_or_default : ℤ → ℤ
limit_or_default (pos (suc n)) = pos (suc n)
limit_or_default _ = pos 100

module _ {D : Type 0} (db : Db D) (l : DbLogger) where
  -- `DBLogger.Log`
  unfoldable pub db_log :
      (D → ℕ) → (Table Value → Result String String) → D → LogEvent → Option Error × D
  db_log clock marshal_meta d e =
      let e' = stamp (clock d) e in
      let args : List Arg = elim l.mapper [
        | none ↦ insert_args marshal_meta e'
        | some mapper ↦ mapper e'
      ] in
      let (problem, d') = db.exec d l.insert_sql args in
      (elim problem [ none ↦ none | some x ↦ some (insert_failed x) ], d')

  -- `DBLogger.Ping`
  unfoldable pub ping : D → Option Error
  ping d = elim (db.ping d) [
    | some x ↦ some (unreachable x)
    | none ↦ elim (db.query_row d ("SELECT 1 FROM " <> l.table <> " LIMIT 1")) [
      | found ↦ none
      | no_rows ↦ none
      | failed x ↦ some (not_accessible x)
    ]
  ]

  abbrev columns : String
  columns =
      "SELECT event_id, type, timestamp, subject, resource, action,\n\t\t\tresult, ip, user_agent, request_id, meta\n\t\t\tFROM "

  -- The query of `Recent`, with or without a subject.
  unfoldable pub recent_query : D → String → ℤ → Result String Rows
  recent_query d subject limit =
      if subject == ""
      then db.query d (columns <> l.table <> " ORDER BY timestamp DESC LIMIT $1") (int limit ∷ [])
      else db.query d (columns <> l.table <> " WHERE subject = $1 ORDER BY timestamp DESC LIMIT $2")
          (plain subject ∷ int limit ∷ [])

-- The event of a row; the text of NULL is empty.
unfoldable pub event_of_row : (String → Table Value) → Row → LogEvent
event_of_row unmarshal_meta row = record {
  id = row.event_id.text;
  type = row.type;
  timestamp = row.timestamp;
  subject = row.subject.text;
  resource = row.resource.text;
  action = row.action.text;
  result = row.result.text;
  ip = row.ip.text;
  user_agent = row.user_agent.text;
  request_id = row.request_id.text;
  meta = if row.meta.valid && not (row.meta.text == "") then unmarshal_meta row.meta.text else [];
}

-- The loop of `Recent`: the first row that does not scan ends it with no events.
unfoldable pub scan_rows :
    (String → Table Value) → List (Result String Row) → Result Error (List LogEvent)
unfolding event_of_row
scan_rows unmarshal_meta [] = ok []
scan_rows unmarshal_meta (err x ∷ rows) = err (scan_failed x)
scan_rows unmarshal_meta (ok row ∷ rows) = elim (scan_rows unmarshal_meta rows) [
  | err x ↦ err x
  | ok events ↦ ok (event_of_row unmarshal_meta row ∷ events)
]

-- `DBLogger.Recent`: the events, and an error, which may come with events.
unfoldable pub recent :
    {D : Type 0}
    → Db D
    → DbLogger
    → (String → Table Value)
    → D
    → String
    → ℤ
    → List LogEvent × Option Error
recent db l unmarshal_meta d subject limit =
    elim (recent_query db l d subject (limit_or_default limit)) [
      | err x ↦ ([], some (query_failed x))
      | ok rows ↦ elim (scan_rows unmarshal_meta rows.rows) [
        | err x ↦ ([], some x)
        | ok events ↦ (events, elim rows.last_error [ none ↦ none | some x ↦ some (rows_failed x) ])
      ]
    ]
