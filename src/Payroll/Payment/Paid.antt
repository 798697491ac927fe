-- ===== src/Payroll/Payment/Paid.antt =====
-- What a payment needs, and what it leaves.
use hidden_oasis_staff_payro.Common.{
  ℕ, ◌≡◌, refl, subst, ◌∙◌, inl, inr, true, none, some, List, [], ◌∷◌, map, ltb, if◌then◌else◌,
  arith, Bool-cases, Option-cases, ap, eq_text, strip, codes,
}
use hidden_oasis_staff_payro.Payroll.Store.{
  Run, draft, for_owner_review, approved, paid, locked, unknown, find_run, run_where_id, RunStatus,
}
use hidden_oasis_staff_payro.Payroll.Lifecycle.{same_status, paid_run}
use hidden_oasis_staff_payro.Payroll.Revision.{
  Ancestry, no_original, original, ancestry_refused, replace_unpaid, adjust_paid, untreated,
  revision_parent_for_payment,
}
use hidden_oasis_staff_payro.Payroll.Ledger.{Ledger}
use hidden_oasis_staff_payro.Payroll.Apply.{apply_payroll_cash_advance_repayments}
use hidden_oasis_staff_payro.Payroll.Payment.{
  has_blockers, Payroll, MarkPaidRequest, Payment, payment_refused, run_paid, payment_guard,
  settle_original, create_event, finish_payment, pay_run, pay_checked, mark_payroll_run_paid,
  superseded_run, stripped, ledger_of,
}

find_run-updated :
    (i j : ℕ) (f : Run → Run) (runs : List Run) (r : Run)
    → ((r : Run) → (f r).id ≡ r.id)
    → find_run i runs ≡ some r
    → find_run i (map (run_where_id j f) runs) ≡ some (run_where_id j f r)
unfolding find_run
find_run-updated i j f [] r keeps h = cc
find_run-updated i j f (x ∷ runs) r keeps h =
    ground (arith, keeps x, find_run-updated i j f runs r keeps)

find_run-id : (i : ℕ) (runs : List Run) (r : Run) → find_run i runs ≡ some r → r.id ≡ i
unfolding find_run
find_run-id i [] r h = absurd (cc h)
find_run-id i (x ∷ runs) r h = ground (arith, find_run-id i runs r)

-- The run is paid in the tables, at the time of the request.
abbrev pub IsPaidAt : ℕ → ℕ → Payment → Type 0
IsPaidAt i now (payment_refused _) = Unit
IsPaidAt i now (run_paid p) =
    (run : Run) × (find_run i p.runs ≡ some run) × (run.status ≡ paid) × (run.paid_at ≡ some now)

settled-found :
    (i : ℕ) (ancestry : Ancestry) (p : Payroll) (run : Run)
    → find_run i p.runs ≡ some run
    → (r : Run) × (find_run i (settle_original i ancestry p).runs ≡ some r)
unfolding settle_original
settled-found i (original parent adjust_paid) p run h = (
  run_where_id parent.id (superseded_run i) run,
  find_run-updated i parent.id (superseded_run i) p.runs run (λ r. refl) h,
)
settled-found i (original parent replace_unpaid) p run h = (run, h)
settled-found i (original parent untreated) p run h = (run, h)
settled-found i no_original p run h = (run, h)
settled-found i (ancestry_refused e) p run h = (run, h)

created-runs : (i : ℕ) (req : MarkPaidRequest) (p : Payroll) → (create_event i req p).runs ≡ p.runs
unfolding create_event
created-runs i req p = elim (Option-cases req.event_error) [
  | inl e ↦ rw (e, create_event) refl
  | inr (error, e) ↦ rw (e, create_event) refl
]

paid-found :
    (i now : ℕ) (runs : List Run) (run : Run)
    → find_run i runs ≡ some run
    → find_run i (map (run_where_id i (paid_run now)) runs) ≡ some (paid_run now run)
paid-found i now runs run h =
    let same : run_where_id i (paid_run now) run ≡ paid_run now run =
      ground (arith, find_run-id i runs run h) in
    find_run-updated i i (paid_run now) runs run (λ r. unfold paid_run in refl) h ∙ ap some same

finish-IsPaidAt :
    (i : ℕ) (req : MarkPaidRequest) (p : Payroll) (l : Ledger) (run : Run)
    → find_run i p.runs ≡ some run
    → IsPaidAt i req.now (run_paid (finish_payment i req p l))
unfolding finish_payment paid_run
finish-IsPaidAt i req p l run h =
    let found : find_run i (finish_payment i req p l).runs ≡ some (paid_run req.now run) =
      rw (created-runs i req _) (paid-found i req.now p.runs run h) in
    (paid_run req.now run, found, refl, refl)

pay_run-IsPaidAt :
    (i : ℕ) (req : MarkPaidRequest) (ancestry : Ancestry) (p : Payroll) (run : Run)
    → find_run i p.runs ≡ some run
    → IsPaidAt i req.now (pay_run i req ancestry p)
unfolding pay_run
pay_run-IsPaidAt i req ancestry p run h =
    let settled = settle_original i ancestry p in
    let applied =
      apply_payroll_cash_advance_repayments i (some req.actor) (stripped req.reference) req.today
        req.now settled.items (ledger_of settled) in
    let (r, found) = settled-found i ancestry p run h in
    elim (Option-cases applied) [
      | inl e ↦ rw (e, pay_run) tt
      | inr (l, e) ↦ rw (e, pay_run) (finish-IsPaidAt i req settled l r found)
    ]

is-approved : (t : RunStatus) → same_status t approved ≡ true → t ≡ approved
unfolding same_status
is-approved draft h = absurd (cc h)
is-approved for_owner_review h = absurd (cc h)
is-approved approved h = refl
is-approved paid h = absurd (cc h)
is-approved locked h = absurd (cc h)
is-approved (unknown t) h = absurd (cc h)

guard-passed :
    (run : Run) → payment_guard run ≡ none → (run.status ≡ approved) × (run.paid_at ≡ none)
unfolding payment_guard
guard-passed run h = elim (Bool-cases (same_status run.status approved)) [
  | inr other ↦ absurd (cc (rw (other, payment_guard) at h))
  | inl same ↦ elim (Option-cases run.paid_at) [
    | inl unpaid ↦ (is-approved run.status same, unpaid)
    | inr (at, e) ↦ absurd (cc (rw (same, e, payment_guard) at h))
  ]
]

-- What holds where a run is paid against an ancestry.
abbrev pub IsCleared : Ancestry → Type 0
IsCleared (ancestry_refused _) = ⊥
IsCleared no_original = Unit
IsCleared (original _ _) = Unit

unblocked :
    (i : ℕ) (req : MarkPaidRequest) (r : Payment) (p' : Payroll)
    → IsPaidAt i req.now r
    → (if ltb 0 req.blockers then payment_refused has_blockers else r) ≡ run_paid p'
    → (req.blockers ≡ 0) × IsPaidAt i req.now (run_paid p')
unblocked i req r p' fine h = elim (Bool-cases (ltb 0 req.blockers)) [
  | inl some_blockers ↦ absurd (cc (rw (some_blockers, if◌then◌else◌) at h))
  | inr no_blockers ↦
      let out : r ≡ run_paid p' = rw (no_blockers, if◌then◌else◌) at h in
      (ground (arith, no_blockers), subst (IsPaidAt i req.now) out fine)
]

checked-paid :
    (i : ℕ) (req : MarkPaidRequest) (p p' : Payroll) (run : Run) (ancestry : Ancestry)
    → find_run i p.runs ≡ some run
    → pay_checked i req p ancestry ≡ run_paid p'
    → (req.blockers ≡ 0) × IsCleared ancestry × IsPaidAt i req.now (run_paid p')
unfolding pay_checked
checked-paid i req p p' run (ancestry_refused e) found h = absurd (cc h)
checked-paid i req p p' run no_original found h =
    let (clear, done) =
      unblocked i req (pay_run i req no_original p) p'
        (pay_run-IsPaidAt i req no_original p run found) h in
    (clear, tt, done)
checked-paid i req p p' run (original parent t) found h =
    let (clear, done) =
      unblocked i req (pay_run i req (original parent t) p) p'
        (pay_run-IsPaidAt i req (original parent t) p run found) h in
    (clear, tt, done)

-- A payment that goes through is the owner's, of a run that was approved, not paid before and without
-- blockers, and that the ancestry of revisions does not refuse: if it is a revision, of an original
-- that may be corrected. Afterwards the run is paid at the time of the request.
pub mark-paid :
    (i : ℕ) (req : MarkPaidRequest) (p p' : Payroll)
    → mark_payroll_run_paid i req p ≡ run_paid p'
    → (run after : Run) × (find_run i p.runs ≡ some run)
      × (req.is_owner ≡ true)
      × (run.status ≡ approved)
      × (run.paid_at ≡ none)
      × (req.blockers ≡ 0)
      × IsCleared (revision_parent_for_payment p.runs run)
      × (find_run i p'.runs ≡ some after)
      × (after.status ≡ paid)
      × (after.paid_at ≡ some req.now)
unfolding mark_payroll_run_paid
mark-paid i req p p' h = elim (Bool-cases req.is_owner) [
  | inr other ↦ absurd (cc (rw (other, mark_payroll_run_paid) at h))
  | inl owner ↦ elim (Bool-cases (eq_text (strip req.confirmation) (codes "MARK PAID"))) [
    | inr other ↦ absurd (cc (rw (owner, other, mark_payroll_run_paid) at h))
    | inl confirmed ↦ elim (Option-cases (find_run i p.runs)) [
      | inl lost ↦ absurd (cc (rw (owner, confirmed, lost, mark_payroll_run_paid) at h))
      | inr (run, found) ↦ elim (Option-cases (payment_guard run)) [
        | inr (e, stopped) ↦
            absurd (cc (rw (owner, confirmed, found, stopped, mark_payroll_run_paid) at h))
        | inl passed ↦
            let ancestry = revision_parent_for_payment p.runs run in
            let out : pay_checked i req p ancestry ≡ run_paid p' =
              rw (owner, confirmed, found, passed, mark_payroll_run_paid) at h in
            let (approved_run, unpaid) = guard-passed run passed in
            let (clear, cleared, done) = checked-paid i req p p' run ancestry found out in
            let (after, found', now_paid, at) = done in
            (run, after, found, owner, approved_run, unpaid, clear, cleared, found', now_paid, at)
      ]
    ]
  ]
]
