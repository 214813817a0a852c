-- ===== src/Audit/Columns.antt =====
-- audit/dblogger.go: the options of the database logger, and the columns that it writes and reads.
use api_security_sdk.Common.{
  String, ◌≡◌, ◌≢◌, refl, ap, arith, inl, inr, true, false, not, ◌&&◌, ◌==◌, eq_iff, Option, none,
  some, List, [], ◌∷◌, Result, ok, if◌then◌else◌, ◌⊎◌, map,
}
use api_security_sdk.Common.Int.{ℤ}
use api_security_sdk.Common.Table.{Table}
use api_security_sdk.Common.Values.{Value}
use api_security_sdk.Audit.{LogEvent}
use api_security_sdk.Audit.Database.{
  Arg, plain, nullable, at, Row, EventMapper, DbLogger, build_insert_sql, Setting, with_table_name,
  with_custom_schema, apply_settings, new_db_logger, null_string, null_bytes, meta_json,
  insert_args, event_of_row, scan_rows, recent, recent_query, limit_or_default, Db,
}

-- The row that a table with the default columns holds for eleven arguments.
unfoldable pub row_of_args : List Arg → Option Row
row_of_args
      (nullable event_id
        ∷ plain type
        ∷ at timestamp
        ∷ nullable subject
        ∷ nullable resource
        ∷ nullable action
        ∷ nullable result
        ∷ nullable ip
        ∷ nullable user_agent
        ∷ nullable request_id
        ∷ nullable meta
        ∷ []) =
    some (record {
      event_id = event_id;
      type = type;
      timestamp = timestamp;
      subject = subject;
      resource = resource;
      action = action;
      result = result;
      ip = ip;
      user_agent = user_agent;
      request_id = request_id;
      meta = meta;
    })
row_of_args _ = none

-- What the code relies on: a table that is not empty has a JSON text, not empty, that reads back.
pub record IsJson (marshal_meta : Table Value → Result String String)
    (unmarshal_meta : String → Table Value) (meta : Table Value) : Type 0 where
  pub text : String
  pub encodes : marshal_meta meta ≡ ok text
  pub filled : text ≢ ""
  pub decodes : unmarshal_meta text ≡ meta

null_string-text : (s : String) → (null_string s).text ≡ s
unfolding null_string
null_string-text s = refl

null_bytes-text : (s : String) → (null_bytes s).text ≡ s
unfolding null_bytes
null_bytes-text s = ground (arith, eq_iff s "")

module _ (marshal_meta : Table Value → Result String String)
    (unmarshal_meta : String → Table Value) where
  read_back :
      (meta : Table Value)
      → (meta ≡ []) ⊎ IsJson marshal_meta unmarshal_meta meta
      → (let column = null_bytes (meta_json marshal_meta meta) in
          if column.valid && not (column.text == "") then unmarshal_meta column.text else [])
        ≡ meta
  unfolding null_bytes meta_json
  read_back [] _ = ground arith
  read_back (entry ∷ rest) (inl empty) = absurd (ground (arith, empty))
  read_back (entry ∷ rest) (inr j) =
      ground (arith, j.encodes, j.filled, j.decodes, eq_iff j.text "")

  -- The event of the columns that an event is written to is the event again, where its metadata is
  -- empty or has a JSON text that reads back.
  pub event_of_row-insert_args :
      (e : LogEvent)
      → (e.meta ≡ []) ⊎ IsJson marshal_meta unmarshal_meta e.meta
      → (row : Row) × (row_of_args (insert_args marshal_meta e) ≡ some row)
        × (event_of_row unmarshal_meta row ≡ e)
  unfolding row_of_args insert_args event_of_row null_string null_bytes meta_json
  event_of_row-insert_args e meta =
      (_, refl, ap (λ m. record e { meta = m }) (read_back e.meta meta))

  -- The rows of a query, for events that were written to them in this order.
  pub data Written : List LogEvent → List (Result String Row) → Type 0 where
    nothing : Written [] []
    one_more :
        {e : LogEvent} {row : Row} {events : List LogEvent} {rows : List (Result String Row)}
        → row_of_args (insert_args marshal_meta e) ≡ some row
        → (e.meta ≡ []) ⊎ IsJson marshal_meta unmarshal_meta e.meta
        → Written events rows
        → Written (e ∷ events) (ok row ∷ rows)

  scan_rows-Written :
      {events : List LogEvent} {rows : List (Result String Row)}
      → Written events rows
      → scan_rows unmarshal_meta rows ≡ ok events
  unfolding scan_rows
  scan_rows-Written nothing = refl
  scan_rows-Written (one_more {e} {row} written meta rest) =
      let (row', stored, read) = event_of_row-insert_args e meta in
      let same : row' ≡ row = ground (arith, stored, written) in
      let read' : event_of_row unmarshal_meta row ≡ e = rw (← same) read in
      let later = scan_rows-Written rest in ground (arith, later, read')

  -- `Recent` gives the events back that were written to the rows of its query, in the order of the
  -- rows and without an error, where the query succeeds to its last row and the metadata of each
  -- event is empty or has a JSON text that reads back.
  pub recent-Written :
      {D : Type 0} (db : Db D) (l : DbLogger) (d : D) (subject : String) (limit : ℤ)
      (events : List LogEvent) (rows : List (Result String Row))
      → recent_query db l d subject (limit_or_default limit)
        ≡ ok (record { rows = rows; last_error = none })
      → Written events rows
      → recent db l unmarshal_meta d subject limit ≡ (events, none)
  unfolding recent
  recent-Written db l d subject limit events rows found written =
      ground (arith, found, scan_rows-Written written)

-- An option of the constructor.
pub data Choice : Type 0 where
  table_name : String → Choice
  schema : String → Option EventMapper → Choice

unfoldable pub setting : Choice → Setting
setting (table_name name) = with_table_name name
setting (schema sql mapper) = with_custom_schema sql mapper

-- The last schema of the options, and the last table name.
unfoldable pub last_schema :
    Option (String × Option EventMapper) → List Choice → Option (String × Option EventMapper)
last_schema held [] = held
last_schema held (table_name name ∷ choices) = last_schema held choices
last_schema held (schema sql mapper ∷ choices) = last_schema (some (sql, mapper)) choices

unfoldable pub last_table : String → List Choice → String
last_table name [] = name
last_table name (table_name other ∷ choices) = last_table other choices
last_table name (schema sql mapper ∷ choices) = last_table name choices

-- What a logger holds of its schema.
unfoldable pub HasSchema : String → Option (String × Option EventMapper) → DbLogger → Type 0
HasSchema name none l =
    (l.insert_sql ≡ build_insert_sql name) × (l.mapper ≡ none) × (l.custom_schema ≡ false)
HasSchema name (some (sql, mapper)) l =
    (l.insert_sql ≡ sql) × (l.mapper ≡ mapper) × (l.custom_schema ≡ true)

apply_settings-HasSchema :
    (name : String) (held : Option (String × Option EventMapper)) (choices : List Choice)
    (l : DbLogger)
    → HasSchema name held l
    → HasSchema
        (last_table name choices)
        (last_schema held choices)
        (apply_settings (map setting choices) l)
unfolding apply_settings setting last_schema last_table with_table_name with_custom_schema HasSchema
apply_settings-HasSchema name held [] l h = h
apply_settings-HasSchema name none (table_name other ∷ choices) l h =
    apply_settings-HasSchema other none choices (with_table_name other l) (ground (arith, h))
apply_settings-HasSchema name (some held) (table_name other ∷ choices) l h =
    apply_settings-HasSchema other (some held) choices (with_table_name other l) (ground (arith, h))
apply_settings-HasSchema name held (schema sql mapper ∷ choices) l h =
    apply_settings-HasSchema name (some (sql, mapper)) choices (with_custom_schema sql mapper l)
      (refl, refl, refl)

-- Whatever the options and their order, the statement and the mapper of a new logger are those of the last
-- custom schema; with no custom schema it has the default statement for the last table name, or
-- for audit_logs, and no mapper.
pub new_db_logger-HasSchema :
    (choices : List Choice)
    → HasSchema
        (last_table "audit_logs" choices)
        (last_schema none choices)
        (new_db_logger (map setting choices))
unfolding new_db_logger HasSchema
new_db_logger-HasSchema choices =
    apply_settings-HasSchema "audit_logs" none choices _ (refl, refl, refl)
