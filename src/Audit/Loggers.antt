-- ===== src/Audit/Loggers.antt =====
-- audit/audit.go: how loggers compose, what a failed writer does to the JSON logger, and what an
-- event shares with its builder.
use api_security_sdk.Common.{
  ℕ, ◌+◌, ◌<◌, String, ◌≡◌, ◌≢◌, refl, sym, ap, arith, inl, inr, Option, none, some, List, [], ◌∷◌,
  Result, eqb, ◌++◌, ◌==◌, if◌then◌else◌, Option-cases, ◌∙◌,
}
use api_security_sdk.Common.Table.{lookup, insert, lookup-insert, lookup-insert_self}
use api_security_sdk.Common.Values.{Value}
use api_security_sdk.Audit.{
  LogEvent, Event, Error, write_failed, Logger, JsonLogger, encode, json_log, first_of, log_each,
  multi_log, new_multi_logger,
}
use api_security_sdk.Audit.Builder.{Heap, Ref, EventBuilder, put, with_meta, build, read_event}

-- The first answer of a list that is an error.
unfoldable pub first_error : List (Option Error) → Option Error
first_error [] = none
first_error (some x ∷ answers) = some x
first_error (none ∷ answers) = first_error answers

module _ {S : Type 0} where
  -- A run that hands the event to each logger in turn, with the answers it got.
  pub data Delivers (e : LogEvent) : List (Logger S) → S → List (Option Error) → S → Type 0 where
    nothing_left : {s : S} → Delivers e [] s [] s
    hand_over :
        {l : Logger S} {ls : List (Logger S)} {s s' : S} {answers : List (Option Error)}
        → Delivers e ls ((l.log s e).1) answers s'
        → Delivers e (l ∷ ls) s ((l.log s e).0 ∷ answers) s'

  log_each-Delivers :
      (first : Option Error) (ls : List (Logger S)) (s : S) (e : LogEvent)
      → (answers : List (Option Error)) × Delivers e ls s answers ((log_each first ls s e).1)
        × ((log_each first ls s e).0 ≡ first_of first (first_error answers))
  unfolding log_each first_of first_error
  log_each-Delivers first [] s e = ([], nothing_left, ground arith)
  log_each-Delivers first (l ∷ ls) s e =
      let (answers, run, same) =
        log_each-Delivers (first_of first ((l.log s e).0)) ls ((l.log s e).1) e in
      ((l.log s e).0 ∷ answers, hand_over run, ground (arith, same))

  -- The multi logger hands the event to each of its loggers, in their order and whatever the ones
  -- before answered, and returns the first of the answers that is an error, none if there is none.
  pub multi_log-Delivers :
      (loggers : List (Logger S)) (s : S) (e : LogEvent)
      → (answers : List (Option Error)) × Delivers e loggers s answers ((multi_log loggers s e).1)
        × ((multi_log loggers s e).0 ≡ first_error answers)
  unfolding multi_log first_of
  multi_log-Delivers loggers s e = log_each-Delivers none loggers s e

  log_each-first_of :
      (first : Option Error) (ls : List (Logger S)) (s : S) (e : LogEvent)
      → log_each first ls s e
        ≡ (first_of first ((log_each none ls s e).0), (log_each none ls s e).1)
  unfolding log_each first_of
  log_each-first_of first [] s e = ground arith
  log_each-first_of first (l ∷ ls) s e = ground (
    arith,
    log_each-first_of (first_of first ((l.log s e).0)) ls ((l.log s e).1) e,
    log_each-first_of ((l.log s e).0) ls ((l.log s e).1) e,
  )

  log_each-append :
      (first : Option Error) (ls ms : List (Logger S)) (s : S) (e : LogEvent)
      → log_each first (ls ++ ms) s e
        ≡ log_each ((log_each first ls s e).0) ms ((log_each first ls s e).1) e
  unfolding log_each
  log_each-append first [] ms s e = refl
  log_each-append first (l ∷ ls) ms s e =
      log_each-append (first_of first ((l.log s e).0)) ls ms ((l.log s e).1) e

  -- A multi logger inside a multi logger is the same as its loggers in its place: they answer the
  -- same and leave the same state.
  pub multi_log-nested :
      (before loggers after : List (Logger S)) (s : S) (e : LogEvent)
      → multi_log (before ++ new_multi_logger loggers ∷ after) s e
        ≡ multi_log (before ++ (loggers ++ after)) s e
  unfolding multi_log log_each
  multi_log-nested before loggers after s e =
      let (a, s1) = log_each none before s e in
      let later : Option Error × S → Option Error × S =
        λ answer. log_each (answer.0) after (answer.1) e in
      log_each-append none before (new_multi_logger loggers ∷ after) s e
      ∙ sym (ap later (log_each-first_of a loggers s1 e))
      ∙ sym (log_each-append a loggers after s1 e)
      ∙ sym (log_each-append none before (loggers ++ after) s e)

module _ {W : Type 0} (clock : W → ℕ) (marshal : LogEvent → Result String String)
    (write : W → String → Option String × W) where
  -- The JSON logger behind a list of events.
  unfoldable pub log_events : List LogEvent → JsonLogger W → JsonLogger W
  log_events [] l = l
  log_events (e ∷ es) l = log_events es ((json_log clock marshal write l e).1)

  json_log-failed :
      (l : JsonLogger W) (e : LogEvent) (x : Error)
      → l.failed ≡ some x
      → json_log clock marshal write l e ≡ (some x, l)
  unfolding json_log encode
  json_log-failed l e x stopped = ground (arith, stopped)

  json_log-keeps :
      (l : JsonLogger W) (e : LogEvent) (x : String)
      → (json_log clock marshal write l e).0 ≡ some (write_failed x)
      → ((json_log clock marshal write l e).1).failed ≡ some (write_failed x)
  unfolding json_log encode
  json_log-keeps l e x answer = ground (arith, answer)

  log_events-failed :
      (es : List LogEvent) (l : JsonLogger W) (x : Error) → l.failed ≡ some x → log_events es l ≡ l
  unfolding log_events
  log_events-failed [] l x stopped = refl
  log_events-failed (e ∷ es) l x stopped =
      ap (λ answer. log_events es (answer.1)) (json_log-failed l e x stopped)
      ∙ log_events-failed es l x stopped

  -- Once a write has failed, the JSON logger writes no more: every later event gets the error of
  -- that write, and nothing of it reaches the writer, whatever the writer could take by then.
  pub write_error_silences :
      (l : JsonLogger W) (e : LogEvent) (x : String) (es : List LogEvent) (later : LogEvent)
      → (json_log clock marshal write l e).0 ≡ some (write_failed x)
      → json_log clock marshal write (log_events es ((json_log clock marshal write l e).1)) later
        ≡ (some (write_failed x), (json_log clock marshal write l e).1)
  write_error_silences l e x es later answer =
      let stopped = json_log-keeps l e x answer in
      ap (λ l'. json_log clock marshal write l' later)
        (log_events-failed es ((json_log clock marshal write l e).1) (write_failed x) stopped)
      ∙ json_log-failed ((json_log clock marshal write l e).1) later (write_failed x) stopped

-- The reference of a builder or an event is to a table that was made.
unfoldable pub IsRef : Heap → Ref → Type 0
IsRef h none = Unit
IsRef h (some at) = at < h.next

-- Two references that share no table.
unfoldable pub IsApart : Ref → Ref → Type 0
IsApart (some at) (some to) = at ≢ to
IsApart _ _ = Unit

cell-put :
    (at : ℕ) (key : String) (value : Value) (h : Heap)
    → (put at key value h).cell at ≡ insert key value (h.cell at)
unfolding put
cell-put at key value h = ground arith

module _ (key : String) (value : Value) (h : Heap) (b : EventBuilder) where
  -- After `WithMeta` the builder's event has the value under the key, and under each other key what
  -- it had before.
  pub lookup-with_meta :
      (name : String)
      → lookup name
          ((read_event ((with_meta key value h b).0) (build ((with_meta key value h b).1))).meta)
        ≡ (if key == name then some value else lookup name ((read_event h (build b)).meta))
  unfolding with_meta build read_event put lookup
  lookup-with_meta name = elim (Option-cases b.e.meta) [
    | inl missing ↦
        let fresh : Heap = record {
          next = h.next + 1;
          cell = λ n. if eqb n h.next then [] else h.cell n;
        } in
        let empty : fresh.cell h.next ≡ [] = ground arith in
        let made = cell-put h.next key value fresh ∙ ap (insert key value) empty in
        let found : lookup name ((put h.next key value fresh).cell h.next)
            ≡ (if key == name then some value else none) =
          ap (lookup name) made ∙ lookup-insert key name value [] in
        rw missing found
    | inr (at, held) ↦
        let found : lookup name ((put at key value h).cell at)
            ≡ (if key == name then some value else lookup name (h.cell at)) =
          ap (lookup name) (cell-put at key value h) ∙ lookup-insert key name value (h.cell at) in
        rw held found
  ]

  -- `WithMeta` changes no event whose metadata is another table.
  pub with_meta_elsewhere :
      (e : Event Ref)
      → IsRef h e.meta
      → IsApart e.meta b.e.meta
      → read_event ((with_meta key value h b).0) e ≡ read_event h e
  unfolding with_meta read_event put IsRef IsApart
  with_meta_elsewhere e made apart = ground (arith, made, apart)

  -- An event that the builder has built before changes with `WithMeta` where the builder had metadata by then: it
  -- has the value under the key.
  pub with_meta_changes_built :
      (at : ℕ)
      → b.e.meta ≡ some at
      → lookup key ((read_event ((with_meta key value h b).0) (build b)).meta) ≡ some value
  unfolding with_meta build read_event put
  with_meta_changes_built at shared =
      ground (arith, shared, lookup-insert_self key value (h.cell at))
