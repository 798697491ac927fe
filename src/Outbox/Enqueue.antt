-- ===== src/Outbox/Enqueue.antt =====
-- core/integration_outbox.py: `enqueue_event`.
pub mod Once
pub mod Protected
use hidden_oasis_staff_payro.Common.{
  ℕ, ◌+◌, max, Bool, not, ◌&&◌, Option, none, some, [], ◌∷◌, ◌++◌, map, if◌then◌else◌, Text,
}
use hidden_oasis_staff_payro.Outbox.Envelope.{Envelope}
use hidden_oasis_staff_payro.Outbox.Row.{
  Row, Outbox, Key, naive, pending, key_of, same_key, find_key, is_protected, is_completed,
  ensure_integration_schema,
}

-- The keyword arguments of the call.
pub record Event : Type 0 where
  pub destination : Text
  pub event_type : Text
  pub external_source : Text
  pub external_id : Text
  pub source_type : Option Text
  pub source_id : Option ℕ
  pub payload : Envelope
  pub max_attempts : ℕ

abbrev pub event_key : Event → Key
event_key e = record {
  destination = e.destination;
  external_source = e.external_source;
  external_id = e.external_id;
}

-- The VALUES of the INSERT.
unfoldable pub new_row : Event → ℕ → ℕ → Row
new_row e now id = record {
  id = id;
  destination = e.destination;
  event_type = e.event_type;
  external_source = e.external_source;
  external_id = e.external_id;
  source_type = e.source_type;
  source_id = e.source_id;
  payload = some e.payload;
  status = pending;
  attempt_count = 0;
  max_attempts = max 1 e.max_attempts;
  next_attempt_at = some (naive now);
  last_attempt_at = none;
  last_error = none;
  response_json = none;
  locked_at = none;
  locked_by = none;
  completed_at = none;
  dead_letter_at = none;
  created_at = naive now;
  updated_at = naive now;
}

-- `ON CONFLICT ... DO UPDATE SET ... WHERE status NOT IN (...)`
unfoldable pub refreshed_row : Event → ℕ → Row → Row
refreshed_row e now r = if is_protected r.status then r else record r {
  event_type = e.event_type;
  source_type = e.source_type;
  source_id = e.source_id;
  payload = some e.payload;
  max_attempts = max 1 e.max_attempts;
  status = if is_completed r.status then r.status else pending;
  next_attempt_at = if is_completed r.status then r.next_attempt_at else some (naive now);
  last_error = if is_completed r.status then r.last_error else none;
  updated_at = naive now;
}

abbrev pub where_key : Key → (Row → Row) → Row → Row
where_key k f r = if same_key (key_of r) k then f r else r

-- INSERT, or UPDATE where the key is there.
unfoldable pub upsert : Event → ℕ → Outbox → Outbox
upsert e now o = elim (find_key (event_key e) o.rows) [
  | none ↦ record { rows = o.rows ++ new_row e now o.next_id ∷ []; next_id = o.next_id + 1 }
  | some _ ↦ record o { rows = map (where_key (event_key e) (refreshed_row e now)) o.rows }
]

pub data Enqueued : Type 0 where
  queued : ℕ → Outbox → Enqueued
  -- RuntimeError: no open transaction
  no_transaction : Enqueued
  -- the row that was just written is not found
  missing : Enqueued

unfoldable pub id_after : Event → Outbox → Enqueued
id_after e o = elim (find_key (event_key e) o.rows) [ none ↦ missing | some r ↦ queued r.id o ]

-- `schema_ready` and `in_transaction` choose how the schema is made ready.
unfoldable pub enqueue_event : Bool → Bool → Event → ℕ → Outbox → Enqueued
enqueue_event schema_ready in_transaction e now o =
    if schema_ready && not in_transaction
    then no_transaction
    else id_after e (upsert e now (if schema_ready then o else ensure_integration_schema o))
