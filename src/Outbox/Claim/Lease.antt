-- ===== src/Outbox/Claim/Lease.antt =====
-- What a claim returns: rows that could be claimed, marked as in processing for the worker.
use hidden_oasis_staff_payro.Common.{
  ℕ, zero, suc, ◌≡◌, ◌≢◌, refl, sym, ap, ◌∙◌, inl, inr, Bool, true, false, ◌&&◌, if◌then◌else◌,
  some, List, [], ◌∷◌, max, map, All, arith, Bool-cases, Option-cases, Text, ◌==◌, ==_refl,
}
use hidden_oasis_staff_payro.Outbox.Row.{
  Row, Outbox, processing, find_row, ensure_integration_schema,
}
use hidden_oasis_staff_payro.Outbox.Table.{
  IsTable, KeepsKeys, AreDistinct, IsFresh, AreDistinct-map, find_row-map, IsTable-map,
}
use hidden_oasis_staff_payro.Outbox.Enqueue.Once.{ensure_integration_schema-IsTable}
use hidden_oasis_staff_payro.Outbox.Claim.{
  is_claimable, claimable_ids, is_listed, claimed_row, is_locked_by, locked_rows, claim_events,
}

pub claimed_row-KeepsKeys :
    (worker : Text) (now : ℕ) (ids : List ℕ) → KeepsKeys (claimed_row worker now ids)
unfolding claimed_row
claimed_row-KeepsKeys worker now ids = record {
  id_kept = λ r. ground arith;
  key_kept = λ r. ground arith;
}

claimable_ids_fresh :
    (n now i : ℕ) (rows : List Row)
    → All (λ s. s.id ≢ i) rows
    → is_listed i (claimable_ids n now rows) ≡ false
unfolding claimable_ids is_listed
claimable_ids_fresh zero now i rows f = refl
claimable_ids_fresh (suc n) now i [] f = refl
claimable_ids_fresh (suc n) now i (r ∷ rows) f =
    ground (arith, claimable_ids_fresh n now i rows f.1, claimable_ids_fresh (suc n) now i rows f.1)

All-fresh : (r : Row) (rows : List Row) → IsFresh r rows → All (λ s. s.id ≢ r.id) rows
All-fresh r [] f = tt
All-fresh r (s ∷ rows) f = (f.0.0, All-fresh r rows f.1)

-- A selected id is that of a row that can be claimed.
claimable_ids_sound :
    (n now i : ℕ) (rows : List Row) (r : Row)
    → AreDistinct rows
    → find_row i rows ≡ some r
    → is_listed i (claimable_ids n now rows) ≡ true
    → is_claimable now r ≡ true
unfolding claimable_ids is_listed find_row
claimable_ids_sound zero now i rows r d found listed = cc
claimable_ids_sound (suc n) now i [] r d found listed = cc
claimable_ids_sound (suc n) now i (s ∷ rows) r d found listed = elim (Bool-cases (s.id == i)) [
  | inl e ↦
      let fresh = claimable_ids_fresh (suc n) now s.id rows (All-fresh s rows d.0) in
      ground (arith, fresh)
  | inr e ↦
      ground (
        arith,
        claimable_ids_sound n now i rows r d.1,
        claimable_ids_sound (suc n) now i rows r d.1,
      )
]

find_row_later :
    (s : Row) (rows all : List Row)
    → All (λ q. q.id ≢ s.id) rows
    → All (λ h. find_row h.id all ≡ some h) rows
    → All (λ h. find_row h.id (s ∷ all) ≡ some h) rows
unfolding find_row
find_row_later s [] all f h = tt
find_row_later s (r ∷ rows) all f h = (ground arith, find_row_later s rows all f.1 h.1)

pub find_row_self :
    (rows : List Row) → AreDistinct rows → All (λ h. find_row h.id rows ≡ some h) rows
find_row_self [] d = tt
find_row_self (r ∷ rows) d = (
  unfold find_row in rw (==_refl r.id),
  find_row_later r rows rows (All-fresh r rows d.0) (find_row_self rows d.1),
)

module _ (P : Row → Type 0) (worker : Text) (ids : List ℕ) where
  keep_listed :
      (b c : Bool) (r : Row) (rest : List Row)
      → P r
      → b ≡ is_listed r.id ids
      → All (λ h. P h × (is_listed h.id ids ≡ true)) rest
      → All (λ h. P h × (is_listed h.id ids ≡ true)) (if b && c then r ∷ rest else rest)
  keep_listed true true r rest p e a = ((p, sym e), a)
  keep_listed true false r rest p e a = a
  keep_listed false c r rest p e a = a

  All-locked :
      (rows : List Row)
      → All P rows
      → All (λ h. P h × (is_listed h.id ids ≡ true)) (locked_rows worker ids rows)
  unfolding locked_rows
  All-locked [] a = tt
  All-locked (r ∷ rows) a =
      keep_listed (is_listed r.id ids) (is_locked_by worker r.locked_by) r
        (locked_rows worker ids rows) a.0 refl (All-locked rows a.1)

-- A returned row, against the table before (the schema made ready) and after.
pub record IsClaimed (worker : Text) (now : ℕ) (rows rows' : List Row) (h : Row) : Type 0 where
  pub origin : Row
  pub found : find_row h.id rows ≡ some origin
  pub claimable : is_claimable now origin ≡ true
  pub kept : find_row h.id rows' ≡ some h
  pub in_processing : h.status ≡ processing
  pub locked : h.locked_by ≡ some worker

claimed_row_marks :
    (worker : Text) (now : ℕ) (ids : List ℕ) (r : Row)
    → is_listed r.id ids ≡ true
    → is_claimable now r ≡ true
    → ((claimed_row worker now ids r).status ≡ processing)
      × ((claimed_row worker now ids r).locked_by ≡ some worker)
unfolding claimed_row is_claimable
claimed_row_marks worker now ids r listed can = ground arith

module _ (worker : Text) (now n : ℕ) (rows : List Row) (d : AreDistinct rows) where
  abbrev ids : List ℕ
  ids = claimable_ids n now rows

  abbrev marked : List Row
  marked = map (claimed_row worker now ids) rows

  marked_row :
      (h : Row)
      → find_row h.id marked ≡ some h
      → is_listed h.id ids ≡ true
      → IsClaimed worker now rows marked h
  marked_row h found listed =
      let back = sym (find_row-map (claimed_row-KeepsKeys worker now ids) h.id rows) ∙ found in
      elim (Option-cases (find_row h.id rows)) [
        | inl gone ↦ cc (rw gone at back)
        | inr (r, origin) ↦
            let same : claimed_row worker now ids r ≡ h = cc (rw origin at back) in
            let can = claimable_ids_sound n now h.id rows r d origin listed in
            let id : r.id ≡ h.id =
              sym ((claimed_row-KeepsKeys worker now ids).id_kept r)
              ∙ ap (λ (q : Row). q.id) same in
            let mark = claimed_row_marks worker now ids r (rw id listed) can in
            record {
              origin = r;
              found = origin;
              claimable = can;
              kept = found;
              in_processing = ap (λ (q : Row). q.status) (sym same) ∙ mark.0;
              locked = ap (λ (q : Row). q.locked_by) (sym same) ∙ mark.1;
            }
      ]

  All-marked :
      (hs : List Row)
      → All (λ h. (find_row h.id marked ≡ some h) × (is_listed h.id ids ≡ true)) hs
      → All (IsClaimed worker now rows marked) hs
  All-marked [] a = tt
  All-marked (h ∷ hs) a = (marked_row h a.0.0 a.0.1, All-marked hs a.1)

  marked_distinct : AreDistinct marked
  marked_distinct = AreDistinct-map (claimed_row-KeepsKeys worker now ids) rows d

  pub All-IsClaimed : All (IsClaimed worker now rows marked) (locked_rows worker ids marked)
  All-IsClaimed = All-marked (locked_rows worker ids marked) (
      All-locked (λ h. find_row h.id marked ≡ some h) worker ids marked
        (find_row_self marked marked_distinct))

-- Locked rows are a part of the rows, so their ids differ too.
IsFresh-locked :
    (worker : Text) (is : List ℕ) (r : Row) (rows : List Row)
    → IsFresh r rows
    → IsFresh r (locked_rows worker is rows)
unfolding locked_rows
IsFresh-locked worker is r [] f = tt
IsFresh-locked worker is r (s ∷ rows) f =
    elim (Bool-cases (is_listed s.id is && is_locked_by worker s.locked_by)) [
      | inl e ↦ rw e (f.0, IsFresh-locked worker is r rows f.1)
      | inr e ↦ rw e (IsFresh-locked worker is r rows f.1)
    ]

pub AreDistinct-locked :
    (worker : Text) (is : List ℕ) (rows : List Row)
    → AreDistinct rows
    → AreDistinct (locked_rows worker is rows)
unfolding locked_rows
AreDistinct-locked worker is [] d = tt
AreDistinct-locked worker is (r ∷ rows) d =
    elim (Bool-cases (is_listed r.id is && is_locked_by worker r.locked_by)) [
      | inl e ↦ rw e (IsFresh-locked worker is r rows d.0, AreDistinct-locked worker is rows d.1)
      | inr e ↦ rw e (AreDistinct-locked worker is rows d.1)
    ]

-- In a table, every row that a claim returns was pending or waiting for a retry, and due, once the
-- schema was made ready, and stands in the table in processing and locked by the worker; no row comes
-- twice, and the table keeps its constraints.
pub claim-lease :
    (limit : ℕ) (worker : Text) (now : ℕ) (o : Outbox)
    → IsTable o
    → let (o', claimed) = claim_events limit worker now o in
      All (IsClaimed worker now (ensure_integration_schema o).rows o'.rows) claimed
      × AreDistinct claimed
      × IsTable o'
unfolding claim_events
claim-lease limit worker now o t =
    let ready = ensure_integration_schema o in
    let t' = ensure_integration_schema-IsTable t in
    (
      All-IsClaimed worker now (max 1 limit) ready.rows t'.distinct,
      AreDistinct-locked worker (claimable_ids (max 1 limit) now ready.rows)
          (marked worker now (max 1 limit) ready.rows t'.distinct)
          (marked_distinct worker now (max 1 limit) ready.rows t'.distinct),
      IsTable-map (claimed_row-KeepsKeys worker now (claimable_ids (max 1 limit) now ready.rows))
          t',
    )
