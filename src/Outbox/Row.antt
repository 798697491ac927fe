-- ===== src/Outbox/Row.antt =====
-- core/integration_outbox.py: the rows of the table `integration_outbox`, in the order of their ids.
use hidden_oasis_staff_payro.Common.{
  ℕ, ◌+◌, ◌*◌, Bool, true, false, Option, none, some, List, [], ◌∷◌, map, ◌&&◌, ◌==◌, if◌then◌else◌,
  Text, eq_text,
}
use hidden_oasis_staff_payro.Outbox.Envelope.{Envelope}

-- The states that the code writes, and the three that `ensure_integration_schema` takes over from
-- older databases.
pub data Status : Type 0 where
  pending processing retry completed dead_letter : Status
  ready sent error : Status

-- A stored instant. `now_iso` writes no offset, `utc_storage_iso` writes `+00:00`; the columns are
-- compared as text, where the longer of two equal instants is the greater.
pub data Stamp : Type 0 where
  naive : ℕ → Stamp
  aware : ℕ → Stamp

abbrev pub stamp_key : Stamp → ℕ
stamp_key (naive s) = 2 * s
stamp_key (aware s) = 2 * s + 1

pub record Row : Type 0 where
  pub id : ℕ
  pub destination : Text
  pub event_type : Text
  pub external_source : Text
  pub external_id : Text
  pub source_type : Option Text
  pub source_id : Option ℕ
  -- `none` for a text that is no JSON
  pub payload : Option Envelope
  pub status : Status
  pub attempt_count : ℕ
  pub max_attempts : ℕ
  pub next_attempt_at : Option Stamp
  pub last_attempt_at : Option Stamp
  pub last_error : Option Text
  pub response_json : Option Text
  pub locked_at : Option Stamp
  pub locked_by : Option Text
  pub completed_at : Option Stamp
  pub dead_letter_at : Option Stamp
  pub created_at : Stamp
  pub updated_at : Stamp

-- The table, with the counter of AUTOINCREMENT.
pub record Outbox : Type 0 where
  pub rows : List Row
  pub next_id : ℕ

-- The columns of the UNIQUE constraint.
pub record Key : Type 0 where
  pub destination : Text
  pub external_source : Text
  pub external_id : Text

abbrev pub key_of : Row → Key
key_of r = record {
  destination = r.destination;
  external_source = r.external_source;
  external_id = r.external_id;
}

unfoldable pub same_key : Key → Key → Bool
same_key a b =
    eq_text a.destination b.destination
    && eq_text a.external_source b.external_source
    && eq_text a.external_id b.external_id

-- `UPDATE ... WHERE id=?`
abbrev pub where_id : ℕ → (Row → Row) → Row → Row
where_id i f r = if r.id == i then f r else r

abbrev pub update_row : ℕ → (Row → Row) → List Row → List Row
update_row i f = map (where_id i f)

unfoldable pub find_row : ℕ → List Row → Option Row
find_row i [] = none
find_row i (r ∷ rows) = if r.id == i then some r else find_row i rows

unfoldable pub find_key : Key → List Row → Option Row
find_key k [] = none
find_key k (r ∷ rows) = if same_key (key_of r) k then some r else find_key k rows

-- `status IN ('Pending','Retry')`
unfoldable pub is_open : Status → Bool
is_open pending = true
is_open retry = true
is_open _ = false

-- `status IN ('Completed', 'Processing', 'Dead Letter')`
unfoldable pub is_protected : Status → Bool
is_protected completed = true
is_protected processing = true
is_protected dead_letter = true
is_protected _ = false

unfoldable pub is_completed : Status → Bool
is_completed completed = true
is_completed _ = false

-- The UPDATE of `ensure_integration_schema` over the legacy states.
unfoldable pub normalized_row : Row → Row
normalized_row r = elim r.status [
  | ready ↦ record r { status = pending }
  | sent ↦ record r {
    status = completed;
    completed_at = elim r.completed_at [ none ↦ some r.updated_at | some t ↦ some t ];
  }
  | error ↦ record r { status = retry }
  | _ ↦ r
]

unfoldable pub ensure_integration_schema : Outbox → Outbox
ensure_integration_schema o = record o { rows = map normalized_row o.rows }
