-- ===== src/Outbox/System.antt =====
-- The outbox with its producers and its workers (core/integration_outbox.py): what any of them may
-- do to the shared table, one transaction at a time, and the rows that the workers hold.
mod Kept
pub mod Held
use hidden_oasis_staff_payro.Common.{ℕ, ◌≡◌, Bool, List, ◌∷◌, ◌++◌, Text}
use hidden_oasis_staff_payro.Outbox.Row.{Row, Outbox}
use hidden_oasis_staff_payro.Outbox.Enqueue.{Event, queued, enqueue_event}
use hidden_oasis_staff_payro.Outbox.Claim.{claim_events}
use hidden_oasis_staff_payro.Outbox.Deliver.{World, Report, processed, process_claimed_event}

pub record System : Type 0 where
  pub outbox : Outbox
  -- the rows that `claim_events` has returned and that are not settled
  pub in_flight : List Row

pub data Step : System → System → Type 0 where
  enqueue :
      (s : System) (sr tx : Bool) (e : Event) (now id : ℕ) (o : Outbox)
      → enqueue_event sr tx e now s.outbox ≡ queued id o
      → Step s (record s { outbox = o })
  claim :
      (s : System) (limit : ℕ) (worker : Text) (now : ℕ) (o : Outbox) (rows : List Row)
      → claim_events limit worker now s.outbox ≡ (o, rows)
      → Step s (record { outbox = o; in_flight = rows ++ s.in_flight })
  deliver :
      (s : System) (w : World) (before : List Row) (h : Row) (after : List Row) (now later : ℕ)
      (o : Outbox) (report : Report)
      → s.in_flight ≡ before ++ h ∷ after
      → process_claimed_event w h now later s.outbox ≡ processed o report
      → Step s (record { outbox = o; in_flight = before ++ after })
  -- a worker stops, or an error leaves the row in processing
  abandon :
      (s : System) (before : List Row) (h : Row) (after : List Row)
      → s.in_flight ≡ before ++ h ∷ after
      → Step s (record s { in_flight = before ++ after })

pub data Reach (s : System) : System → Type 0 where
  here : Reach s s
  next : {t u : System} → Reach s t → Step t u → Reach s u
