-- ===== src/Payroll/Revision/Tests.antt =====
-- A paid run and the revision that adjusts it (core/payroll_revision_lifecycle.py).
use hidden_oasis_staff_payro.Common.{
  ℕ, ◌≡◌, refl, none, some, List, [], ◌∷◌, codes, eq_text, strip, lstrip, rstrip, is_space,
}
use hidden_oasis_staff_payro.Payroll.Store.{Run, approved, paid, find_run}
use hidden_oasis_staff_payro.Payroll.Revision.{
  superseding_run_id, is_paid_like_run, adjust_paid, treatment_of, original_superseded, original,
  ancestry_refused, adjusted, checked_parent, revision_parent_for_payment,
}
use hidden_oasis_staff_payro.Payroll.Revision.Parent.{IsPayable, ancestry-IsPayable}

abbrev paid_run_six : Run
paid_run_six = record {
  id = 6;
  status = paid;
  period_end = codes "2026-01-14";
  payout_date = codes "2026-01-15";
  revision_of_run_id = none;
  superseded_by_run_id = none;
  revision_treatment = none;
  prepared_by = none;
  approved_by = none;
  approved_at = none;
  paid_at = some 90;
  locked_at = none;
  reopen_reason = none;
}

abbrev revision : Run
revision = record paid_run_six {
  id = 8;
  status = approved;
  revision_of_run_id = some 6;
  revision_treatment = some (codes "adjust_paid ");
  paid_at = none;
}

abbrev runs : List Run
runs = paid_run_six ∷ revision ∷ []

accepted : revision_parent_for_payment runs revision ≡ original paid_run_six adjust_paid
unfolding revision_parent_for_payment superseding_run_id find_run checked_parent adjusted
    treatment_of is_paid_like_run eq_text strip lstrip rstrip is_space
accepted = refl

-- Another run has superseded the original.
second_refused :
    revision_parent_for_payment
      (record paid_run_six { superseded_by_run_id = some 9 } ∷ [])
      revision
    ≡ ancestry_refused original_superseded
unfolding revision_parent_for_payment superseding_run_id find_run checked_parent adjusted
    treatment_of is_paid_like_run eq_text strip lstrip rstrip is_space
second_refused = refl

ancestry-IsPayable_example :
    (superseding_run_id revision ≡ none)
    × (parent_id : ℕ) × (revision.revision_of_run_id ≡ some parent_id)
    × (find_run parent_id runs ≡ some paid_run_six)
    × IsPayable revision paid_run_six adjust_paid
ancestry-IsPayable_example = ancestry-IsPayable runs revision paid_run_six adjust_paid accepted
