-- ===== src/Payroll/Revision/Parent.antt =====
-- The originals that a revision may be paid against.
use hidden_oasis_staff_payro.Common.{
  ℕ, ◌≡◌, ◌⊎◌, refl, zero, suc, sym, ap, subst, ◌∙◌, true, false, Option, none, some, List, arith,
}
use hidden_oasis_staff_payro.Payroll.Store.{Run, find_run}
use hidden_oasis_staff_payro.Payroll.Revision.{
  superseding_run_id, is_paid_like_run, Treatment, replace_unpaid, adjust_paid, untreated,
  treatment_of, RevisionRefusal, original_unpaid, no_treatment, original_gone, ancestry_refused,
  original, adjusted, replaced, checked_parent, revision_parent_for_payment, run_id_or_none,
}

-- An unpaid original that this revision is the active version of, or a paid one that no other run
-- has superseded.
abbrev pub IsPayable : Run → Run → Treatment → Type 0
IsPayable run parent t =
    ((t ≡ replace_unpaid)
      × (is_paid_like_run parent ≡ false)
      × (superseding_run_id parent ≡ some run.id))
    ⊎ ((t ≡ adjust_paid)
        × (is_paid_like_run parent ≡ true)
        × ((superseding_run_id parent ≡ none) ⊎ (superseding_run_id parent ≡ some run.id)))

adjusted-IsPayable :
    (why : RevisionRefusal) (run parent found : Run) (t : Treatment)
    → adjusted why run parent ≡ original found t
    → (found ≡ parent) × IsPayable run parent t
unfolding adjusted
adjusted-IsPayable why run parent found t h = (ground arith, ground arith)

replaced-IsPayable :
    (run parent found : Run) (t : Treatment)
    → replaced run parent ≡ original found t
    → (found ≡ parent) × IsPayable run parent t
unfolding replaced
replaced-IsPayable run parent found t h = (ground arith, ground arith)

checked-IsPayable :
    (run parent found : Run) (t : Treatment)
    → checked_parent run parent ≡ original found t
    → (found ≡ parent) × IsPayable run parent t
unfolding checked_parent
checked-IsPayable run parent found t h = by_treatment (treatment_of run) refl
  where
    by_treatment :
        (u : Treatment) → treatment_of run ≡ u → (found ≡ parent) × IsPayable run parent t
    by_treatment replace_unpaid e =
        replaced-IsPayable run parent found t (rw (e, checked_parent) at h)
    by_treatment adjust_paid e =
        adjusted-IsPayable original_unpaid run parent found t (rw (e, checked_parent) at h)
    by_treatment untreated e =
        adjusted-IsPayable no_treatment run parent found t (rw (e, checked_parent) at h)

some_id : (o : Option ℕ) (n : ℕ) → run_id_or_none o ≡ some n → o ≡ some n
some_id none n h = cc
some_id (some zero) n h = cc
some_id (some (suc m)) n h = h

-- When the ancestry check of a payment returns an original, the run is not superseded, the original
-- is the run that it revises, and that is either unpaid with this revision as its active version, or
-- paid and superseded by no other run.
pub ancestry-IsPayable :
    (runs : List Run) (run parent : Run) (t : Treatment)
    → revision_parent_for_payment runs run ≡ original parent t
    → (superseding_run_id run ≡ none)
      × (parent_id : ℕ) × (run.revision_of_run_id ≡ some parent_id)
      × (find_run parent_id runs ≡ some parent)
      × IsPayable run parent t
unfolding revision_parent_for_payment
ancestry-IsPayable runs run parent t h =
    by_current (superseding_run_id run) refl (run_id_or_none run.revision_of_run_id) refl
  where
    by_parent :
        (n : ℕ) (o : Option Run)
        → find_run n runs ≡ o
        → (elim o [
          | none ↦ ancestry_refused original_gone
          | some parent ↦ checked_parent run parent
        ])
          ≡ original parent t
        → (find_run n runs ≡ some parent) × IsPayable run parent t
    by_parent n none e g = cc
    by_parent n (some p) e g =
        let (same, payable) = checked-IsPayable run p parent t g in
        (e ∙ ap some (sym same), subst (λ q. IsPayable run q t) (sym same) payable)

    by_current :
        (s : Option ℕ)
        → superseding_run_id run ≡ s
        → (o : Option ℕ) → run_id_or_none run.revision_of_run_id ≡ o
        → (superseding_run_id run ≡ none)
          × (parent_id : ℕ) × (run.revision_of_run_id ≡ some parent_id)
          × (find_run parent_id runs ≡ some parent)
          × IsPayable run parent t
    by_current (some n) e o f = cc (rw (e, revision_parent_for_payment) at h)
    by_current none e none f = cc (rw (e, f, revision_parent_for_payment) at h)
    by_current none e (some n) f =
        let (found, payable) =
          by_parent n (find_run n runs) refl (rw (e, f, revision_parent_for_payment) at h) in
        (e, n, some_id run.revision_of_run_id n f, found, payable)
