-- ===== src/Outbox/Enqueue/Once.antt =====
-- An event is queued once under its key: later calls find the same row, and leave a row that is
-- delivered, in delivery or given up as it is.
use mathlib.Core.Option
use hidden_oasis_staff_payro.Common.{
  ℕ, ◌+◌, ◌≡◌, refl, ap, ◌∙◌, inl, inr, Bool, true, false, not, ◌&&◌, none, some, [], ◌∷◌, ◌++◌,
  map, length, length-map, arith, Option-cases, if◌then◌else◌,
}
use hidden_oasis_staff_payro.Outbox.Row.{
  Row, Outbox, Key, key_of, same_key, find_key, normalized_row, ensure_integration_schema,
}
use hidden_oasis_staff_payro.Outbox.Table.{
  IsTable, KeepsKeys, IsTable-map, AreDistinct-append, AreBelow-append, find_key-map,
  find_key-append, same_key_refl,
}
use hidden_oasis_staff_payro.Outbox.Enqueue.{
  Event, queued, event_key, new_row, refreshed_row, where_key, upsert, id_after, enqueue_event,
}

pub normalized_row-KeepsKeys : KeepsKeys normalized_row
unfolding normalized_row
normalized_row-KeepsKeys = record { id_kept = λ r. ground arith; key_kept = λ r. ground arith }

pub ensure_integration_schema-IsTable :
    {o : Outbox} → IsTable o → IsTable (ensure_integration_schema o)
unfolding ensure_integration_schema
ensure_integration_schema-IsTable t = IsTable-map normalized_row-KeepsKeys t

pub refresh-KeepsKeys :
    (e : Event) (now : ℕ) → KeepsKeys (where_key (event_key e) (refreshed_row e now))
unfolding refreshed_row
refresh-KeepsKeys e now = record { id_kept = λ r. ground arith; key_kept = λ r. ground arith }

module _ (e : Event) (now : ℕ) (o : Outbox) where
  abbrev refreshed : Outbox
  refreshed = record o { rows = map (where_key (event_key e) (refreshed_row e now)) o.rows }

  abbrev extended : Outbox
  extended = record { rows = o.rows ++ new_row e now o.next_id ∷ []; next_id = o.next_id + 1 }

  upsert_old : {r : Row} → find_key (event_key e) o.rows ≡ some r → upsert e now o ≡ refreshed
  unfolding upsert
  upsert_old old = rw (old, upsert)

  upsert_new : find_key (event_key e) o.rows ≡ none → upsert e now o ≡ extended
  unfolding upsert
  upsert_new new = rw (new, upsert)

  new_row-key : same_key (key_of (new_row e now o.next_id)) (event_key e) ≡ true
  unfolding new_row
  new_row-key = same_key_refl (event_key e)

  extended-IsTable : find_key (event_key e) o.rows ≡ none → IsTable o → IsTable extended
  unfolding new_row
  extended-IsTable new t = record {
    distinct = AreDistinct-append o.rows (new_row e now o.next_id) t.distinct t.below new;
    below = AreBelow-append o.next_id o.rows (new_row e now o.next_id) t.below refl;
  }

  pub upsert-IsTable : IsTable o → IsTable (upsert e now o)
  upsert-IsTable t = elim (Option-cases (find_key (event_key e) o.rows)) [
    | inl new ↦ rw (upsert_new new) (extended-IsTable new t)
    | inr (r, old) ↦ rw (upsert_old old) (IsTable-map (refresh-KeepsKeys e now) t)
  ]

  -- A known key keeps its row and its id, and no row is added.
  upsert_known :
      (r : Row)
      → find_key (event_key e) o.rows ≡ some r
      → (find_key (event_key e) (upsert e now o).rows
          ≡ some (where_key (event_key e) (refreshed_row e now) r))
        × (length (upsert e now o).rows ≡ length o.rows)
  upsert_known r old = rw (upsert_old old) (
    find_key-map (refresh-KeepsKeys e now) (event_key e) o.rows
        ∙ ap (Option.map (where_key (event_key e) (refreshed_row e now))) old,
    length-map _ o.rows,
  )

  pub upsert_unknown :
      find_key (event_key e) o.rows ≡ none
      → find_key (event_key e) (upsert e now o).rows ≡ some (new_row e now o.next_id)
  unfolding find_key
  upsert_unknown new =
      rw (upsert_new new)
        (find_key-append (event_key e) o.rows (new_row e now o.next_id) ∙ rw (new, new_row-key))

-- The table once the schema is made ready.
abbrev pub readied : Bool → Outbox → Outbox
readied schema_ready o = if schema_ready then o else ensure_integration_schema o

pub readied-IsTable : (b : Bool) (o : Outbox) → IsTable o → IsTable (readied b o)
readied-IsTable true o t = t
readied-IsTable false o t = ensure_integration_schema-IsTable t

readied_known :
    (b : Bool) (o : Outbox) (k : Key) (r : Row)
    → find_key k o.rows ≡ some r
    → (s : Row) × (find_key k (readied b o).rows ≡ some s)
      × (s.id ≡ r.id)
      × (length (readied b o).rows ≡ length o.rows)
unfolding ensure_integration_schema
readied_known true o k r h = (r, h, refl, refl)
readied_known false o k r h = (
  normalized_row r,
  find_key-map normalized_row-KeepsKeys k o.rows ∙ ap (Option.map normalized_row) h,
  normalized_row-KeepsKeys.id_kept r,
  length-map _ o.rows,
)

pub upsert_found :
    (e : Event) (now : ℕ) (o : Outbox)
    → (r : Row) × (find_key (event_key e) (upsert e now o).rows ≡ some r)
upsert_found e now o = elim (Option-cases (find_key (event_key e) o.rows)) [
  | inl new ↦ (new_row e now o.next_id, upsert_unknown e now o new)
  | inr (r, old) ↦ (where_key (event_key e) (refreshed_row e now) r, (upsert_known e now o r old).0)
]

pub enqueue_event_lem :
    (sr tx : Bool) (e : Event) (now : ℕ) (o : Outbox)
    → (sr && not tx) ≡ false
    → {r : Row} → find_key (event_key e) (upsert e now (readied sr o)).rows ≡ some r
    → enqueue_event sr tx e now o ≡ queued r.id (upsert e now (readied sr o))
unfolding enqueue_event id_after
enqueue_event_lem sr tx e now o h {r} found = rw (h, id_after, found)

-- In a table, two calls with one key, whatever else differs, neither of them told that the schema is
-- ready outside of a transaction, succeed with the same id; the second adds no row, and ids and keys
-- stay distinct.
pub enqueue-once :
    (o : Outbox) (e e' : Event) (sr tx sr' tx' : Bool) (now now' : ℕ)
    → IsTable o
    → (sr && not tx) ≡ false
    → (sr' && not tx') ≡ false
    → event_key e' ≡ event_key e
    → (id : ℕ) × (o1 o2 : Outbox) × (enqueue_event sr tx e now o ≡ queued id o1)
      × (enqueue_event sr' tx' e' now' o1 ≡ queued id o2)
      × (length o2.rows ≡ length o1.rows)
      × IsTable o2
enqueue-once o e e' sr tx sr' tx' now now' t h h' same =
    let o1 = upsert e now (readied sr o) in
    let (r, found) = upsert_found e now (readied sr o) in
    let (s, again, id, long) = readied_known sr' o1 (event_key e') r (rw same found) in
    let (known, long') = upsert_known e' now' (readied sr' o1) s again in
    let id' = (refresh-KeepsKeys e' now').id_kept s in
    (
      r.id,
      o1,
      upsert e' now' (readied sr' o1),
      enqueue_event_lem sr tx e now o h found,
      enqueue_event_lem sr' tx' e' now' o1 h' known
          ∙ ap (λ (i : ℕ). queued i (upsert e' now' (readied sr' o1))) (id' ∙ id),
      long' ∙ long,
      upsert-IsTable e' now' (readied sr' o1)
          (readied-IsTable sr' o1 (upsert-IsTable e now (readied sr o) (readied-IsTable sr o t))),
    )
