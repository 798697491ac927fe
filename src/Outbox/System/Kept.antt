-- ===== src/Outbox/System/Kept.antt =====
-- What the updates leave alone: a row in processing, completed or dead-lettered is kept by every
-- update but the one that settles it.
use mathlib.Core.Option
use hidden_oasis_staff_payro.Common.{
  ℕ, ◌≡◌, ap, ◌∙◌, inl, inr, Bool, true, false, some, List, map, arith, Option-cases, Text,
}
use hidden_oasis_staff_payro.Outbox.Row.{
  Row, Outbox, find_row, find_key, is_protected, normalized_row, ensure_integration_schema,
}
use hidden_oasis_staff_payro.Outbox.Table.{KeepsKeys, find_row-map, find_row-append, IsTable}
use hidden_oasis_staff_payro.Outbox.Enqueue.{
  Event, queued, event_key, new_row, refreshed_row, where_key, upsert, id_after, enqueue_event,
}
use hidden_oasis_staff_payro.Outbox.Enqueue.Once.{
  normalized_row-KeepsKeys, refresh-KeepsKeys, readied, readied-IsTable, upsert-IsTable,
}
use hidden_oasis_staff_payro.Outbox.Claim.{claimed_row}

-- The row of the id, unchanged.
abbrev pub Keeps : ℕ → Outbox → Outbox → Type 0
Keeps i o o' =
    (r : Row)
    → find_row i o.rows ≡ some r
    → is_protected r.status ≡ true
    → find_row i o'.rows ≡ some r

pub Keeps-map :
    (f : Row → Row)
    → KeepsKeys f
    → ((r : Row) → is_protected r.status ≡ true → f r ≡ r)
    → (i : ℕ) (o : Outbox) → Keeps i o (record o { rows = map f o.rows })
Keeps-map f k kept i o r h p = find_row-map k i o.rows ∙ ap (Option.map f) h ∙ ap some (kept r p)

normalized_row_kept : (r : Row) → is_protected r.status ≡ true → normalized_row r ≡ r
unfolding normalized_row is_protected
normalized_row_kept r h = ground arith

refreshed_row_kept :
    (e : Event) (now : ℕ) (r : Row)
    → is_protected r.status ≡ true
    → where_key (event_key e) (refreshed_row e now) r ≡ r
unfolding refreshed_row
refreshed_row_kept e now r h = ground arith

pub claimed_row_kept :
    (worker : Text) (now : ℕ) (ids : List ℕ) (r : Row)
    → is_protected r.status ≡ true
    → claimed_row worker now ids r ≡ r
unfolding claimed_row is_protected
claimed_row_kept worker now ids r h = ground arith

pub ensure_integration_schema-Keeps : (i : ℕ) (o : Outbox) → Keeps i o (ensure_integration_schema o)
unfolding ensure_integration_schema
ensure_integration_schema-Keeps =
    Keeps-map normalized_row normalized_row-KeepsKeys normalized_row_kept

Keeps-trans : (i : ℕ) (o o' o'' : Outbox) → Keeps i o o' → Keeps i o' o'' → Keeps i o o''
Keeps-trans i o o' o'' a b r h p = b r (a r h p) p

readied-Keeps : (b : Bool) (i : ℕ) (o : Outbox) → Keeps i o (readied b o)
readied-Keeps true i o r h p = h
readied-Keeps false i o r h p = ensure_integration_schema-Keeps i o r h p

upsert-Keeps : (e : Event) (now : ℕ) (i : ℕ) (o : Outbox) → Keeps i o (upsert e now o)
unfolding upsert
upsert-Keeps e now i o r h p = elim (Option-cases (find_key (event_key e) o.rows)) [
  | inl new ↦ rw (new, upsert) (rw (find_row-append i o.rows (new_row e now o.next_id), h))
  | inr (s, old) ↦
      rw (old, upsert)
        (Keeps-map (where_key (event_key e) (refreshed_row e now)) (refresh-KeepsKeys e now)
          (refreshed_row_kept e now) i o r h p)
]

-- A successful call is the INSERT or UPDATE of the table made ready.
queued_lem :
    (sr tx : Bool) (e : Event) (now id : ℕ) (o o' : Outbox)
    → enqueue_event sr tx e now o ≡ queued id o'
    → o' ≡ upsert e now (readied sr o)
unfolding enqueue_event id_after
queued_lem sr tx e now id o o' h = ground arith

pub enqueue_event-Keeps :
    (sr tx : Bool) (e : Event) (now id : ℕ) (o o' : Outbox)
    → enqueue_event sr tx e now o ≡ queued id o'
    → (i : ℕ) → Keeps i o o'
enqueue_event-Keeps sr tx e now id o o' h i = rw (queued_lem sr tx e now id o o' h) (
    Keeps-trans i o (readied sr o) (upsert e now (readied sr o)) (readied-Keeps sr i o)
      (upsert-Keeps e now i (readied sr o)))

pub enqueue_event-IsTable :
    (sr tx : Bool) (e : Event) (now id : ℕ) (o o' : Outbox)
    → enqueue_event sr tx e now o ≡ queued id o'
    → IsTable o
    → IsTable o'
enqueue_event-IsTable sr tx e now id o o' h t =
    rw (queued_lem sr tx e now id o o' h)
      (upsert-IsTable e now (readied sr o) (readied-IsTable sr o t))
