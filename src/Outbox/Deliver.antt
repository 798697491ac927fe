-- ===== src/Outbox/Deliver.antt =====
-- core/integration_outbox.py: `process_claimed_event`. The HTTP request is a parameter; a body that
-- parses is kept with what the code reads of it.
pub mod Settled
pub mod Outcome
use hidden_oasis_staff_payro.Common.{
  ℕ, ◌+◌, ◌-◌, ◌*◌, ◌^◌, min, Bool, true, false, not, ◌&&◌, ◌||◌, Option, none, some, [], ◌∷◌, ltb,
  leb, ◌==◌, if◌then◌else◌, Text, codes, eq_text, normalized,
}
use hidden_oasis_staff_payro.Outbox.Envelope.{Envelope, other_event, event_type}
use hidden_oasis_staff_payro.Outbox.Canonical.{Outbound, canonical_accounting_payload}
use hidden_oasis_staff_payro.Outbox.Routing.{destination_config, endpoint_for, join_url}
use hidden_oasis_staff_payro.Outbox.Row.{
  Row, Outbox, naive, aware, Status, retry, completed, dead_letter, update_row,
}

-- The response body: a text, and the field `status` where the text is a JSON object.
pub record Body : Type 0 where
  pub text : Text
  pub status : Option Text

-- `_post` returns a status code and a body, or raises one of the errors that are caught.
pub data Reply : Type 0 where
  response : ℕ → Body → Reply
  failed : Text → Reply

-- What is sent: a review request, or the envelope itself.
pub data Outgoing : Type 0 where
  review : Outbound → Outgoing
  plain : Envelope → Outgoing

-- The world around a delivery: `os.getenv`, and the request by URL, body and token.
pub record World : Type 0 where
  pub getenv : Text → Text
  pub post : Text → Outgoing → Text → Reply

pub record Report : Type 0 where
  pub id : ℕ
  pub status : Status
  pub http_status : Option ℕ

pub data Processed : Type 0 where
  processed : Outbox → Report → Processed
  -- ValueError, raised before any write
  unsupported : Processed

unfoldable pub backoff_seconds : ℕ → ℕ
backoff_seconds attempt = min 3600 (15 * 2 ^ (attempt - 1))

unfoldable pub outgoing : Text → Text → Envelope → Outgoing
unfolding event_type
outgoing destination event e =
    if eq_text destination (codes "accounting")
    then elim (event_type event) [
      | other_event ↦ plain e
      | kind ↦ review (canonical_accounting_payload kind e)
    ]
    else plain e

unfoldable pub acknowledged_duplicate : Body → Bool
acknowledged_duplicate body = elim body.status [
  | none ↦ false
  | some s ↦
      eq_text (normalized s) (codes "already_applied")
      || eq_text (normalized s) (codes "already applied")
]

unfoldable pub is_delivered : ℕ → Body → Bool
is_delivered code body =
    (leb 200 code && ltb code 300) || ((code == 409) && acknowledged_duplicate body)

unfoldable pub is_retryable : ℕ → Bool
is_retryable code = leb 500 code || (code == 408) || (code == 425) || (code == 429)

-- The code of the `try` block: what came back, or an error that is retried.
unfoldable pub attempt_post : World → Text → Text → Row → Reply
attempt_post w base token r = elim (endpoint_for r.destination r.event_type) [
  | none ↦ failed (codes "unsupported event")
  | some endpoint ↦ elim r.payload [
    | none ↦ failed (codes "invalid JSON")
    | some e ↦ w.post (join_url base endpoint) (outgoing r.destination r.event_type e) token
  ]
]

-- `int(row.get("max_attempts") or 8)`
unfoldable pub attempts_allowed : Row → ℕ
attempts_allowed r = if r.max_attempts == 0 then 8 else r.max_attempts

module _ (r : Row) (now later : ℕ) where
  -- The UPDATE for a destination with no URL.
  unfoldable pub unconfigured_row : Row → Row
  unconfigured_row row = record row {
    status = retry;
    attempt_count = r.attempt_count + 1;
    last_attempt_at = some (naive now);
    last_error = some (codes "destination is not configured");
    locked_at = none;
    locked_by = none;
    next_attempt_at = some (aware (later + 3600));
    updated_at = naive now;
  }

  -- The UPDATE for a delivered event.
  unfoldable pub delivered_row : Body → Row → Row
  delivered_row body row = record row {
    status = completed;
    attempt_count = r.attempt_count + 1;
    last_attempt_at = some (naive now);
    last_error = none;
    response_json = some body.text;
    completed_at = some (naive now);
    locked_at = none;
    locked_by = none;
    updated_at = naive now;
  }

  unfoldable pub is_dead : Bool → Bool
  unfolding attempts_allowed
  is_dead retryable = not retryable || leb (attempts_allowed r) (r.attempt_count + 1)

  -- The UPDATE for an event that was not delivered.
  unfoldable pub failed_row : Bool → Text → Row → Row
  failed_row retryable error row = record row {
    status = if is_dead retryable then dead_letter else retry;
    attempt_count = r.attempt_count + 1;
    last_attempt_at = some (naive now);
    last_error = some error;
    next_attempt_at =
        if is_dead retryable
        then none
        else some (aware (later + backoff_seconds (r.attempt_count + 1)));
    dead_letter_at = if is_dead retryable then some (naive now) else none;
    locked_at = none;
    locked_by = none;
    updated_at = naive now;
  }

  unfoldable pub settle : Reply → Outbox → Processed
  settle (response code body) o =
      if is_delivered code body
      then processed (record o { rows = update_row r.id (delivered_row body) o.rows })
          (record { id = r.id; status = completed; http_status = some code })
      else processed
          (record o { rows = update_row r.id (failed_row (is_retryable code) body.text) o.rows })
          (record {
            id = r.id;
            status = if is_dead (is_retryable code) then dead_letter else retry;
            http_status = some code;
          })
  settle (failed error) o =
      processed (record o { rows = update_row r.id (failed_row true error) o.rows })
        (record {
          id = r.id;
          status = if is_dead true then dead_letter else retry;
          http_status = none;
        })

-- `now` and `later` are the readings of the clock before and after the request.
unfoldable pub process_claimed_event : World → Row → ℕ → ℕ → Outbox → Processed
process_claimed_event w r now later o = elim (destination_config w.getenv r.destination) [
  | none ↦ unsupported
  | some (base, token) ↦ elim base [
    | [] ↦
        processed (record o { rows = update_row r.id (unconfigured_row r now later) o.rows })
          (record { id = r.id; status = retry; http_status = none })
    | c ∷ s ↦ settle r now later (attempt_post w (c ∷ s) token r) o
  ]
]
