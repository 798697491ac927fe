-- ===== src/Payroll/Lifecycle/Transitions.antt =====
-- Which changes of a run's status are made, and what they do to the runs.
use hidden_oasis_staff_payro.Common.{ℕ, ◌≡◌, refl, Bool, true, false, Option, none, some, arith}
use hidden_oasis_staff_payro.Payroll.Store.{Run, RunStatus, normalize_payroll_status, find_run}
use hidden_oasis_staff_payro.Payroll.Lifecycle.{
  Books, Request, Refusal, changed, same_status, allowed, is_superseded, guard, changed_books,
  change, update_run, update_payroll_status,
}

-- A change that is made passes the guards.
pub record IsMade (run_id : ℕ) (req : Request) (b b' : Books) : Type 0 where
  pub run : Run
  pub found : find_run run_id b.store.runs ≡ some run
  pub passes : guard run (normalize_payroll_status req.status) req ≡ none
  pub result : b' ≡ changed_books run_id run.status (normalize_payroll_status req.status) req b

change-changed :
    (run_id : ℕ) (run : Run) (status : RunStatus) (req : Request) (b b' : Books)
    → change run_id run status req b ≡ changed b'
    → (guard run status req ≡ none) × (b' ≡ changed_books run_id run.status status req b)
unfolding change
change-changed run_id run status req b b' h =
    by_test (same_status status run.status) refl (guard run status req) refl
  where
    by_test :
        (t : Bool)
        → same_status status run.status ≡ t
        → (o : Option Refusal) → guard run status req ≡ o
        → (guard run status req ≡ none) × (b' ≡ changed_books run_id run.status status req b)
    by_test true e o g = cc (rw (e, change) at h)
    by_test false e none g = (g, cc (rw (e, g, change) at h))
    by_test false e (some why) g = cc (rw (e, g, change) at h)

update_run-changed :
    (run_id : ℕ) (run : Run) (status : RunStatus) (req : Request) (b b' : Books)
    → update_run run_id run status req b ≡ changed b'
    → change run_id run status req b ≡ changed b'
unfolding update_run
update_run-changed run_id run status req b b' h = ground arith

pub update-IsMade :
    (run_id : ℕ) (req : Request) (b b' : Books)
    → update_payroll_status run_id req b ≡ changed b'
    → IsMade run_id req b b'
unfolding update_payroll_status
update-IsMade run_id req b b' h = by_run (find_run run_id b.store.runs) refl
  where
    by_run : (o : Option Run) → find_run run_id b.store.runs ≡ o → IsMade run_id req b b'
    by_run none e = cc (rw (e, update_payroll_status) at h)
    by_run (some run) e =
        let status = normalize_payroll_status req.status in
        let (g, r) =
          change-changed run_id run status req b b'
            (update_run-changed run_id run status req b b' (rw (e, update_payroll_status) at h)) in
        record { run = run; found = e; passes = g; result = r }

pub guard-allowed :
    (run : Run) (status : RunStatus) (req : Request)
    → guard run status req ≡ none
    → (allowed run.status status ≡ true) × (is_superseded run ≡ false)
unfolding guard
guard-allowed run status req h = (ground arith, ground arith)
