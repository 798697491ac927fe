-- ===== src/Payroll/Revision.antt =====
-- core/payroll_revision_lifecycle.py: which revision of a run may be paid. The id 0 stands for no run.
pub mod Parent
mod Tests
use hidden_oasis_staff_payro.Common.{
  ℕ, zero, suc, Bool, true, false, not, ◌||◌, Option, none, some, List, [], ◌==◌, is_some,
  if◌then◌else◌, Text, codes, eq_text, normalized, strip,
}
use hidden_oasis_staff_payro.Payroll.Store.{
  Run, draft, for_owner_review, approved, paid, locked, unknown, find_run,
}

abbrev pub run_id_or_none : Option ℕ → Option ℕ
run_id_or_none none = none
run_id_or_none (some zero) = none
run_id_or_none (some (suc n)) = some (suc n)

unfoldable pub superseding_run_id : Run → Option ℕ
superseding_run_id run = run_id_or_none run.superseded_by_run_id

abbrev is_paid_like_text : Text → Bool
is_paid_like_text t =
    eq_text t (codes "paid") || eq_text t (codes "locked") || eq_text t (codes "released")

-- A status outside of the five is compared without case and the space around it.
unfoldable pub is_paid_like_run : Run → Bool
is_paid_like_run run = is_some run.paid_at || (elim run.status [
  | draft ↦ false
  | for_owner_review ↦ false
  | approved ↦ false
  | paid ↦ true
  | locked ↦ true
  | unknown t ↦ is_paid_like_text (normalized t)
])

pub data Treatment : Type 0 where
  replace_unpaid adjust_paid untreated : Treatment

unfoldable pub treatment_of : Run → Treatment
treatment_of run = elim run.revision_treatment [
  | none ↦ untreated
  | some t ↦
      if eq_text (strip t) (codes "replace_unpaid")
      then replace_unpaid
      else if eq_text (strip t) (codes "adjust_paid")
      then adjust_paid
      else untreated
]

-- The `ValueError`s.
pub data RevisionRefusal : Type 0 where
  revision_superseded original_gone original_paid not_active_version : RevisionRefusal
  original_unpaid original_superseded no_treatment : RevisionRefusal

-- What the payment goes on with: no original, or the original and the treatment of its revision.
pub data Ancestry : Type 0 where
  no_original : Ancestry
  original : Run → Treatment → Ancestry
  ancestry_refused : RevisionRefusal → Ancestry

abbrev same_id : Option ℕ → ℕ → Bool
same_id none n = false
same_id (some m) n = m == n

abbrev no_other : Option ℕ → ℕ → Bool
no_other none n = true
no_other (some m) n = m == n

-- The checks of a revision that adjusts a paid original, with the error for an unpaid one.
unfoldable pub adjusted : RevisionRefusal → Run → Run → Ancestry
adjusted unpaid run parent =
    if not (is_paid_like_run parent)
    then ancestry_refused unpaid
    else if not (no_other (superseding_run_id parent) run.id)
    then ancestry_refused original_superseded
    else original parent adjust_paid

-- The checks of a revision that replaces an unpaid original.
unfoldable pub replaced : Run → Run → Ancestry
replaced run parent =
    if is_paid_like_run parent
    then ancestry_refused original_paid
    else if not (same_id (superseding_run_id parent) run.id)
    then ancestry_refused not_active_version
    else original parent replace_unpaid

unfoldable pub checked_parent : Run → Run → Ancestry
checked_parent run parent = elim (treatment_of run) [
  | replace_unpaid ↦ replaced run parent
  | adjust_paid ↦ adjusted original_unpaid run parent
  | untreated ↦ adjusted no_treatment run parent
]

unfoldable pub revision_parent_for_payment : List Run → Run → Ancestry
revision_parent_for_payment runs run =
    if is_some (superseding_run_id run)
    then ancestry_refused revision_superseded
    else elim (run_id_or_none run.revision_of_run_id) [
      | none ↦ no_original
      | some parent_id ↦ elim (find_run parent_id runs) [
        | none ↦ ancestry_refused original_gone
        | some parent ↦ checked_parent run parent
      ]
    ]
