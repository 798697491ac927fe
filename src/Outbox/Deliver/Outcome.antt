-- ===== src/Outbox/Deliver/Outcome.antt =====
-- What a delivery leaves in the table, by what came back.
use mathlib.Core.Option
use hidden_oasis_staff_payro.Common.{
  ℕ, ◌+◌, ◌≡◌, refl, ap, ◌∙◌, Bool, true, false, ◌&&◌, Option, none, some, map, arith, ==_refl,
  List, ltb, Text, if◌then◌else◌,
}
use hidden_oasis_staff_payro.Outbox.Row.{
  Row, Outbox, Status, retry, completed, dead_letter, find_row, where_id,
}
use hidden_oasis_staff_payro.Outbox.Table.{KeepsKeys, find_row-map, id-find_row, where_id-KeepsKeys}
use hidden_oasis_staff_payro.Outbox.Deliver.Settled.{failed-KeepsKeys}
use hidden_oasis_staff_payro.Outbox.Deliver.{
  Reply, response, failed, is_delivered, is_retryable, attempts_allowed, is_dead, failed_row,
}

-- A 2xx answer, or a 409 whose body says that the event was applied before.
abbrev pub reply_delivered : Reply → Bool
reply_delivered (response code body) = is_delivered code body
reply_delivered (failed _) = false

-- A transport error, or a status code that asks to come back later.
abbrev pub reply_retryable : Reply → Bool
reply_retryable (response code _) = is_retryable code
reply_retryable (failed _) = true

-- The specification of the next status.
abbrev pub next_status : Row → Reply → Status
next_status r reply =
    if reply_delivered reply
    then completed
    else if reply_retryable reply && ltb (r.attempt_count + 1) (attempts_allowed r)
    then retry
    else dead_letter

find_row-update_self :
    (i : ℕ) (f : Row → Row) (rows : List Row) (r : Row)
    → KeepsKeys f
    → find_row i rows ≡ some r
    → find_row i (map (where_id i f) rows) ≡ some (f r)
find_row-update_self i f rows r k found =
    find_row-map (where_id-KeepsKeys i f k) i rows
    ∙ ap (Option.map (where_id i f)) found
    ∙ rw (id-find_row i rows found, ==_refl i)

-- The row of the event after the settlement, with the attempt counted and the lock released.
abbrev pub IsAttempted : Row → Status → Option Row → Type 0
IsAttempted r status none = ⊥
IsAttempted r status (some row) =
    (row.status ≡ status)
    × (row.attempt_count ≡ r.attempt_count + 1)
    × (row.locked_by ≡ none)
    × (row.payload ≡ r.payload)

module _ (r : Row) (now later : ℕ) where
  failed_status :
      (b : Bool)
      → (if is_dead r now later b then dead_letter else retry)
        ≡ (if b && ltb (r.attempt_count + 1) (attempts_allowed r) then retry else dead_letter)
  unfolding is_dead
  failed_status b = ground arith

  module _ (o : Outbox) (found : find_row r.id o.rows ≡ some r) where
    failed_attempt :
        (b : Bool) (error : Text)
        → IsAttempted r
            (if b && ltb (r.attempt_count + 1) (attempts_allowed r) then retry else dead_letter)
            (find_row r.id (map (where_id r.id (failed_row r now later b error)) o.rows))
    failed_attempt b error =
        rw
          (find_row-update_self r.id (failed_row r now later b error) o.rows r
            (failed-KeepsKeys r now later b error) found)
          (unfold failed_row in (failed_status b, refl, refl, refl))
