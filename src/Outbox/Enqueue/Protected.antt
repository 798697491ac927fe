-- ===== src/Outbox/Enqueue/Protected.antt =====
-- A row that is delivered, in delivery or given up is not touched by a later event of its key.
use mathlib.Core.Path.{subst}
use hidden_oasis_staff_payro.Common.{
  ℕ, ◌≡◌, refl, ap, inl, inr, true, false, some, List, [], ◌∷◌, map, Bool-cases,
}
use hidden_oasis_staff_payro.Outbox.Row.{Row, Outbox, key_of, same_key, find_key, is_protected}
use hidden_oasis_staff_payro.Outbox.Table.{IsTable, AreDistinct, IsFresh, eq_of_same_key}
use hidden_oasis_staff_payro.Outbox.Enqueue.{
  Event, queued, event_key, refreshed_row, where_key, upsert, id_after, enqueue_event,
}

module _ (e : Event) (now : ℕ) where
  refreshed_protected : (r : Row) → is_protected r.status ≡ true → refreshed_row e now r ≡ r
  unfolding refreshed_row
  refreshed_protected r h = rw h

  refresh_others :
      (r : Row) (rows : List Row)
      → IsFresh r rows
      → key_of r ≡ event_key e
      → map (where_key (event_key e) (refreshed_row e now)) rows ≡ rows
  refresh_others r [] f k = refl
  refresh_others r (s ∷ rows) f k =
      let other : same_key (key_of s) (event_key e) ≡ false =
        subst (λ q. same_key (key_of s) q ≡ false) k f.0.1 in
      rw other (ap (λ t. s ∷ t) (refresh_others r rows f.1 k))

  refresh_protected :
      (rows : List Row) (r : Row)
      → AreDistinct rows
      → find_key (event_key e) rows ≡ some r
      → is_protected r.status ≡ true
      → map (where_key (event_key e) (refreshed_row e now)) rows ≡ rows
  unfolding find_key
  refresh_protected [] r d found h = cc
  refresh_protected (s ∷ rows) r d found h = elim (Bool-cases (same_key (key_of s) (event_key e))) [
    | inl e' ↦
        let same : s ≡ r = cc (rw e' at found) in
        let keep : refreshed_row e now s ≡ s = refreshed_protected s (rw same h) in
        let k = eq_of_same_key (key_of s) (event_key e) e' in
        rw (e', keep) (ap (λ t. s ∷ t) (refresh_others s rows d.0 k))
    | inr e' ↦ rw e' (ap (λ t. s ∷ t) (refresh_protected rows r d.1 (rw e' at found) h))
  ]

pub upsert_protected :
    (e : Event) (now : ℕ) (o : Outbox) (r : Row)
    → IsTable o
    → find_key (event_key e) o.rows ≡ some r
    → is_protected r.status ≡ true
    → upsert e now o ≡ o
unfolding upsert
upsert_protected e now o r t found h =
    rw (found, upsert) (rw (refresh_protected e now o.rows r t.distinct found h))

-- In a table, an event whose key belongs to a row that is completed, in processing or a dead letter,
-- enqueued with the schema ready and inside a transaction, returns that row's id and changes nothing.
enqueue-protected :
    (e : Event) (now : ℕ) (o : Outbox) (r : Row)
    → IsTable o
    → find_key (event_key e) o.rows ≡ some r
    → is_protected r.status ≡ true
    → enqueue_event true true e now o ≡ queued r.id o
unfolding enqueue_event id_after
enqueue-protected e now o r t found h =
    rw (upsert_protected e now o r t found h, id_after, found)
      (ap (queued r.id) (upsert_protected e now o r t found h))
