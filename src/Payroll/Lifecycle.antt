-- ===== src/Payroll/Lifecycle.antt =====
-- core/payroll_engine.py: `update_payroll_status`, with the guard of core/payroll_revision_lifecycle.py.
-- The number of blockers of the preflight and the outcome of the hand-off to the outbox come with
-- the request; a hand-off is recorded by its run and the status that it saw.
pub mod Transitions
pub mod Written
pub mod Finalized
pub mod Money
use hidden_oasis_staff_payro.Common.{
  ℕ, zero, suc, Bool, true, false, not, ◌&&◌, ◌||◌, Option, none, some, List, [], ◌∷◌, ◌++◌, map,
  ltb, ◌==◌, if◌then◌else◌, Text, eq_text,
}
use hidden_oasis_staff_payro.Payroll.Store.{
  Store, Run, RunStatus, draft, for_owner_review, approved, paid, locked, unknown,
  normalize_payroll_status, find_run, run_where_id,
}
use hidden_oasis_staff_payro.Payroll.Advances.{
  apply_cash_advance_repayments, reverse_cash_advance_repayments,
}
use hidden_oasis_staff_payro.Payroll.Queue.{
  Entry, is_entry_of, queued_review, queue_reversed, queue_exported,
  create_accounting_queue_for_payroll,
}

pub data AuditEntry : Type 0 where
  status_changed : Text → RunStatus → RunStatus → ℕ → Option Text → AuditEntry
  handoff_failed : Text → ℕ → Text → AuditEntry

pub record Books : Type 0 where
  pub store : Store
  pub queue : List Entry
  pub handoffs : List (ℕ × RunStatus)
  pub audit : List AuditEntry

pub record Request : Type 0 where
  pub status : Text
  pub actor : Text
  pub reason : Option Text
  pub now : ℕ
  -- what `build_payroll_preflight_checks` reports
  pub blockers : ℕ
  -- the exception of `enqueue_payroll_run`
  pub handoff_error : Option Text

-- The `ValueError`s.
pub data Refusal : Type 0 where
  run_not_found finalized superseded uncontrolled_revision invalid_transition : Refusal
  reason_required has_blockers : Refusal

pub data Outcome : Type 0 where
  refused : Refusal → Outcome
  unchanged : Outcome
  changed : Books → Outcome

unfoldable pub same_status : RunStatus → RunStatus → Bool
same_status draft t = elim t [ draft ↦ true | _ ↦ false ]
same_status for_owner_review t = elim t [ for_owner_review ↦ true | _ ↦ false ]
same_status approved t = elim t [ approved ↦ true | _ ↦ false ]
same_status paid t = elim t [ paid ↦ true | _ ↦ false ]
same_status locked t = elim t [ locked ↦ true | _ ↦ false ]
same_status (unknown s) t = elim t [ unknown u ↦ eq_text s u | _ ↦ false ]

unfoldable pub is_final : RunStatus → Bool
is_final paid = true
is_final locked = true
is_final _ = false

unfoldable pub allowed : RunStatus → RunStatus → Bool
allowed draft for_owner_review = true
allowed for_owner_review approved = true
allowed for_owner_review draft = true
allowed approved paid = true
allowed approved locked = true
allowed approved draft = true
allowed paid locked = true
allowed _ _ = false

-- An id that is neither NULL nor 0.
abbrev is_id : Option ℕ → Bool
is_id none = false
is_id (some zero) = false
is_id (some (suc _)) = true

unfoldable pub is_superseded : Run → Bool
is_superseded run = is_id run.superseded_by_run_id

unfoldable pub is_revision : Run → Bool
is_revision run = is_id run.revision_of_run_id

abbrev has_reason : Option Text → Bool
has_reason none = false
has_reason (some []) = false
has_reason (some (_ ∷ _)) = true

abbrev needs_preflight : RunStatus → Bool
needs_preflight approved = true
needs_preflight paid = true
needs_preflight _ = false

-- The guards behind the one of a finalized run, in their order.
unfoldable pub guard : Run → RunStatus → Request → Option Refusal
unfolding is_superseded is_revision allowed
guard run status req =
    if is_superseded run
    then some superseded
    else if same_status status paid && is_revision run
    then some uncontrolled_revision
    else if not (allowed run.status status)
    then some invalid_transition
    else if same_status status draft && not (has_reason req.reason)
    then some reason_required
    else if needs_preflight status && ltb 0 req.blockers
    then some has_blockers
    else none

abbrev set_runs : ℕ → (Run → Run) → Store → Store
set_runs run_id f s = record s { runs = map (run_where_id run_id f) s.runs }

unfoldable pub paid_run : ℕ → Run → Run
paid_run now r = record r { status = paid; paid_at = some now }

unfoldable pub approved_run : Text → ℕ → Run → Run
approved_run actor now r = record r {
  status = approved;
  approved_by = some actor;
  approved_at = some now;
}

unfoldable pub locked_run : ℕ → Run → Run
locked_run now r = record r { status = locked; locked_at = some now }

unfoldable pub reviewed_run : Text → ℕ → Run → Run
reviewed_run actor now r = record r {
  status = for_owner_review;
  locked_at = some now;
  prepared_by = elim r.prepared_by [ none ↦ some actor | some who ↦ some who ];
}

unfoldable pub reopened_run : Option Text → Run → Run
reopened_run reason r = record r {
  status = draft;
  reopen_reason = reason;
  approved_by = none;
  approved_at = none;
  locked_at = none;
}

-- `enqueue_payroll_run`, and the audit entry of its failure.
unfoldable pub hand_off : ℕ → RunStatus → Request → Books → Books
hand_off run_id status req b = elim req.handoff_error [
  | none ↦ record b { handoffs = b.handoffs ++ ((run_id, status) ∷ []) }
  | some error ↦ record b { audit = b.audit ++ (handoff_failed req.actor run_id error ∷ []) }
]

abbrev reversed_entry : ℕ → Entry → Entry
reversed_entry run_id e =
    if is_entry_of run_id e
      && (elim e.status [ queued_review ↦ true | queue_reversed ↦ false | queue_exported ↦ false ])
    then record e { status = queue_reversed }
    else e

-- The effects of a return to draft; those of a finalized run come first.
unfoldable pub reopen : ℕ → RunStatus → Request → Books → Books
unfolding reopened_run
reopen run_id old req b =
    let undone = record b {
      store = reverse_cash_advance_repayments run_id b.store;
      queue = map (reversed_entry run_id) b.queue;
    } in
    let from = if is_final old then undone else b in
    record from { store = set_runs run_id (reopened_run req.reason) from.store }

-- The repayments, the status and the journal lines of a payment, and its hand-off.
unfoldable pub pay : ℕ → Request → Books → Books
pay run_id req b =
    let repaid = apply_cash_advance_repayments run_id b.store in
    let stored = set_runs run_id (paid_run req.now) repaid in
    hand_off run_id paid req (record b {
      store = stored;
      queue = create_accounting_queue_for_payroll run_id stored b.queue;
    })

unfoldable pub effects : ℕ → RunStatus → RunStatus → Request → Books → Books
effects run_id old paid req b = pay run_id req b
effects run_id old approved req b =
    hand_off run_id approved req
      (record b { store = set_runs run_id (approved_run req.actor req.now) b.store })
effects run_id old locked req b = record b { store = set_runs run_id (locked_run req.now) b.store }
effects run_id old for_owner_review req b = record b {
  store = set_runs run_id (reviewed_run req.actor req.now) b.store;
}
effects run_id old draft req b = reopen run_id old req b
effects run_id old (unknown t) req b = record b {
  store = set_runs run_id (λ r. record r { status = unknown t }) b.store;
}

unfoldable pub changed_books : ℕ → RunStatus → RunStatus → Request → Books → Books
changed_books run_id old status req b =
    let done = effects run_id old status req b in
    record done {
      audit = done.audit ++ (status_changed req.actor old status run_id req.reason ∷ []);
    }

-- What follows the test of the finalized statuses.
unfoldable pub change : ℕ → Run → RunStatus → Request → Books → Outcome
change run_id run status req b =
    if same_status status run.status then unchanged else elim (guard run status req) [
      | some why ↦ refused why
      | none ↦ changed (changed_books run_id run.status status req b)
    ]

abbrev is_lock : RunStatus → RunStatus → Bool
is_lock old status = same_status old paid && same_status status locked

unfoldable pub update_run : ℕ → Run → RunStatus → Request → Books → Outcome
update_run run_id run status req b =
    if is_final run.status && not (same_status status run.status) && not (is_lock run.status status)
    then refused finalized
    else change run_id run status req b

unfoldable pub update_payroll_status : ℕ → Request → Books → Outcome
update_payroll_status run_id req b = elim (find_run run_id b.store.runs) [
  | none ↦ refused run_not_found
  | some run ↦ update_run run_id run (normalize_payroll_status req.status) req b
]
