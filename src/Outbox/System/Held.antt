-- ===== src/Outbox/System/Held.antt =====
-- Producers and workers together: no row is held twice, and a completed row stays as it is.
use hidden_oasis_staff_payro.Common.{
  ℕ, ◌≡◌, ◌≢◌, sym, ap, ◌∙◌, subst, true, some, List, [], ◌∷◌, ◌++◌, All, arith, Text,
}
use hidden_oasis_staff_payro.Outbox.Row.{
  Row, Outbox, completed, processing, find_row, is_open, is_protected, ensure_integration_schema,
}
use hidden_oasis_staff_payro.Outbox.Table.{IsTable, AreDistinct, IsFresh}
use hidden_oasis_staff_payro.Outbox.Claim.{is_claimable, claim_events}
use hidden_oasis_staff_payro.Outbox.Claim.Lease.{IsClaimed, claimed_row-KeepsKeys, claim-lease}
use hidden_oasis_staff_payro.Outbox.System.{
  System, Step, enqueue, claim, deliver, abandon, Reach, here, next,
}
use hidden_oasis_staff_payro.Outbox.System.Kept.{
  Keeps, Keeps-map, claimed_row_kept, ensure_integration_schema-Keeps, enqueue_event-Keeps,
  enqueue_event-IsTable,
}
use hidden_oasis_staff_payro.Outbox.Deliver.Settled.{
  process-IsSettled, settled-IsTable, settled_others,
}

-- The row stands in the table as it was claimed, in processing.
abbrev pub IsHeld : Outbox → Row → Type 0
IsHeld o h = (find_row h.id o.rows ≡ some h) × (h.status ≡ processing)

-- Ids that differ, pair by pair.
abbrev pub AreApart : List Row → Type 0
AreApart [] = Unit
AreApart (r ∷ rows) = All (λ s. s.id ≢ r.id) rows × AreApart rows

pub record IsSafe (s : System) : Type 0 where
  pub table : IsTable s.outbox
  pub held : All (IsHeld s.outbox) s.in_flight
  pub apart : AreApart s.in_flight

processing_protected : (h : Row) → h.status ≡ processing → is_protected h.status ≡ true
unfolding is_protected
processing_protected h e = rw e

IsHeld-kept :
    (o o' : Outbox)
    → ((i : ℕ) → Keeps i o o')
    → (hs : List Row) → All (IsHeld o) hs
    → All (IsHeld o') hs
IsHeld-kept o o' k [] a = tt
IsHeld-kept o o' k (h ∷ hs) a =
    ((k h.id h a.0.0 (processing_protected h a.0.1), a.0.1), IsHeld-kept o o' k hs a.1)

claim_events-Keeps :
    (limit : ℕ) (worker : Text) (now : ℕ) (o : Outbox) (i : ℕ)
    → Keeps i o (claim_events limit worker now o).0
unfolding claim_events
claim_events-Keeps limit worker now o i r h p =
    Keeps-map _ (claimed_row-KeepsKeys worker now _) (claimed_row_kept worker now _) i
      (ensure_integration_schema o) r (ensure_integration_schema-Keeps i o r h p) p

-- A row that was claimed just now was open, so no worker held it.
claimed_apart :
    (worker : Text) (now : ℕ) (o o' : Outbox) (h g : Row)
    → IsClaimed worker now (ensure_integration_schema o).rows o'.rows h
    → IsHeld o g
    → h.id ≢ g.id
unfolding is_claimable is_open
claimed_apart worker now o o' h g c held same =
    let still = ensure_integration_schema-Keeps g.id o g held.0 (processing_protected g held.1) in
    let row : some c.origin ≡ some g =
      sym c.found ∙ ap (λ (i : ℕ). find_row i (ensure_integration_schema o).rows) same ∙ still in
    let origin : c.origin ≡ g = cc row in ground (arith, c.claimable, origin, held.1)

module _ (worker : Text) (now : ℕ) (o o' : Outbox) where
  abbrev Claimed : Row → Type 0
  Claimed = IsClaimed worker now (ensure_integration_schema o).rows o'.rows

  one_apart : (h : Row) (gs : List Row) → Claimed h → All (IsHeld o) gs → All (λ g. g.id ≢ h.id) gs
  one_apart h [] c a = tt
  one_apart h (g ∷ gs) c a =
      (λ e. claimed_apart worker now o o' h g c a.0 (sym e), one_apart h gs c a.1)

  both_apart :
      (h : Row) (hs gs : List Row)
      → All (λ g. g.id ≢ h.id) hs
      → All (λ g. g.id ≢ h.id) gs
      → All (λ g. g.id ≢ h.id) (hs ++ gs)
  both_apart h [] gs a b = b
  both_apart h (k ∷ hs) gs a b = (a.0, both_apart h hs gs a.1 b)

  fresh_apart : (h : Row) (hs : List Row) → IsFresh h hs → All (λ g. g.id ≢ h.id) hs
  fresh_apart h [] f = tt
  fresh_apart h (k ∷ hs) f = (f.0.0, fresh_apart h hs f.1)

  Claimed-AreApart :
      (hs gs : List Row)
      → All Claimed hs
      → AreDistinct hs
      → All (IsHeld o) gs
      → AreApart gs
      → AreApart (hs ++ gs)
  Claimed-AreApart [] gs c d a p = p
  Claimed-AreApart (h ∷ hs) gs c d a p = (
    both_apart h hs gs (fresh_apart h hs d.0) (one_apart h gs c.0 a),
    Claimed-AreApart hs gs c.1 d.1 a p,
  )

  Claimed-IsHeld :
      (hs gs : List Row) → All Claimed hs → All (IsHeld o') gs → All (IsHeld o') (hs ++ gs)
  Claimed-IsHeld [] gs c a = a
  Claimed-IsHeld (h ∷ hs) gs c a = ((c.0.kept, c.0.in_processing), Claimed-IsHeld hs gs c.1 a)

All-remove :
    (P : Row → Type 0) (before : List Row) (h : Row) (after : List Row)
    → All P (before ++ h ∷ after)
    → All P (before ++ after) × P h
All-remove P [] h after a = (a.1, a.0)
All-remove P (g ∷ before) h after a =
    let (rest, p) = All-remove P before h after a.1 in ((a.0, rest), p)

-- Taking one held row out leaves the others, whose ids differ from its id.
AreApart-remove :
    (before : List Row) (h : Row) (after : List Row)
    → AreApart (before ++ h ∷ after)
    → AreApart (before ++ after) × All (λ g. g.id ≢ h.id) (before ++ after)
AreApart-remove [] h after a = (a.1, a.0)
AreApart-remove (g ∷ before) h after a =
    let (rest, others) = AreApart-remove before h after a.1 in
    let (later, ne) = All-remove (λ k. k.id ≢ g.id) before h after a.0 in
    ((later, rest), ((λ e. ne (sym e)), others))

settled-IsHeld :
    (i : ℕ) (o o' : Outbox)
    → ((j : ℕ) → j ≢ i → find_row j o'.rows ≡ find_row j o.rows)
    → (hs : List Row) → All (λ g. g.id ≢ i) hs
    → All (IsHeld o) hs
    → All (IsHeld o') hs
settled-IsHeld i o o' others [] n a = tt
settled-IsHeld i o o' others (h ∷ hs) n a =
    ((others h.id n.0 ∙ a.0.0, a.0.1), settled-IsHeld i o o' others hs n.1 a.1)

claim-IsSafe :
    (s : System) (limit : ℕ) (worker : Text) (now : ℕ)
    → IsSafe s
    → let (o, rows) = claim_events limit worker now s.outbox in
      IsSafe (record { outbox = o; in_flight = rows ++ s.in_flight })
claim-IsSafe s limit worker now v =
    let (o, rows) = claim_events limit worker now s.outbox in
    let (claimed, distinct, table) = claim-lease limit worker now s.outbox v.table in
    let kept =
      IsHeld-kept s.outbox o (claim_events-Keeps limit worker now s.outbox) s.in_flight v.held in
    record {
      table = table;
      held = Claimed-IsHeld worker now s.outbox o rows s.in_flight claimed kept;
      apart =
          Claimed-AreApart worker now s.outbox o rows s.in_flight claimed distinct v.held v.apart;
    }

pub Step-IsSafe : {s t : System} → Step s t → IsSafe s → IsSafe t
Step-IsSafe (enqueue s sr tx e now id o h) v = record {
  table = enqueue_event-IsTable sr tx e now id s.outbox o h v.table;
  held =
      IsHeld-kept s.outbox o (enqueue_event-Keeps sr tx e now id s.outbox o h) s.in_flight v.held;
  apart = v.apart;
}
Step-IsSafe (claim s limit worker now o rows h) v =
    subst
      (λ (p : Outbox × List Row). IsSafe (record { outbox = p.0; in_flight = p.1 ++ s.in_flight }))
      h (claim-IsSafe s limit worker now v)
Step-IsSafe (deliver s w before h after now later o report split done) v =
    let settled = process-IsSettled w h now later s.outbox o report done in
    let held =
      All-remove (IsHeld s.outbox) before h after (subst (All (IsHeld s.outbox)) split v.held) in
    let apart = AreApart-remove before h after (subst AreApart split v.apart) in
    record {
      table = settled-IsTable settled v.table;
      held =
          settled-IsHeld h.id s.outbox o (settled_others settled) (before ++ after) apart.1 held.0;
      apart = apart.0;
    }
Step-IsSafe (abandon s before h after split) v = record {
  table = v.table;
  held =
      (All-remove (IsHeld s.outbox) before h after (subst (All (IsHeld s.outbox)) split v.held)).0;
  apart = (AreApart-remove before h after (subst AreApart split v.apart)).0;
}

-- From a safe system, any steps of producers and workers lead to a safe one: the table keeps its
-- constraints, each row that a worker holds stands in the table in processing as it was claimed, and
-- no row is held twice.
pub Reach-IsSafe : {s t : System} → Reach s t → IsSafe s → IsSafe t
Reach-IsSafe here v = v
Reach-IsSafe (next r st) v = Step-IsSafe st (Reach-IsSafe r v)

completed_protected : (r : Row) → r.status ≡ completed → is_protected r.status ≡ true
unfolding is_protected
completed_protected r e = rw e

held_not_completed :
    (o : Outbox) (h r : Row) (i : ℕ)
    → IsHeld o h
    → find_row i o.rows ≡ some r
    → r.status ≡ completed
    → i ≢ h.id
held_not_completed o h r i held found done e =
    let row : some h ≡ some r = sym held.0 ∙ ap (λ (j : ℕ). find_row j o.rows) (sym e) ∙ found in
    let same : h ≡ r = cc row in
    let clash : processing ≡ completed = sym held.1 ∙ ap (λ (q : Row). q.status) same ∙ done in
    cc clash

Step-completed :
    {s t : System}
    → Step s t
    → IsSafe s
    → (i : ℕ) (r : Row) → find_row i s.outbox.rows ≡ some r
    → r.status ≡ completed
    → find_row i t.outbox.rows ≡ some r
Step-completed (enqueue s sr tx e now id o h) v i r found done =
    enqueue_event-Keeps sr tx e now id s.outbox o h i r found (completed_protected r done)
Step-completed (claim s limit worker now o rows h) v i r found done =
    subst (λ (p : Outbox × List Row). find_row i p.0.rows ≡ some r) h
      (claim_events-Keeps limit worker now s.outbox i r found (completed_protected r done))
Step-completed (deliver s w before h after now later o report split sent) v i r found done =
    let held =
      (All-remove (IsHeld s.outbox) before h after
        (subst (All (IsHeld s.outbox)) split v.held)).1 in
    settled_others (process-IsSettled w h now later s.outbox o report sent) i
      (held_not_completed s.outbox h r i held found done)
    ∙ found
Step-completed (abandon s before h after split) v i r found done = found

-- From a safe system, a row that is completed stays as it is under any steps of producers and
-- workers.
pub completed_final :
    {s t : System}
    → Reach s t
    → IsSafe s
    → (i : ℕ) (r : Row) → find_row i s.outbox.rows ≡ some r
    → r.status ≡ completed
    → find_row i t.outbox.rows ≡ some r
completed_final here v i r found done = found
completed_final (next p st) v i r found done =
    Step-completed st (Reach-IsSafe p v) i r (completed_final p v i r found done) done
