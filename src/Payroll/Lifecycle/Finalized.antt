-- ===== src/Payroll/Lifecycle/Finalized.antt =====
-- The life of a run: its statuses follow the table, and a finalized run stays so.
use hidden_oasis_staff_payro.Common.{
  ℕ, ◌≡◌, ◌≢◌, inl, inr, refl, sym, subst, ◌∙◌, true, false, some, arith, ◌==◌, Bool-cases,
}
use hidden_oasis_staff_payro.Payroll.Store.{
  Run, RunStatus, draft, for_owner_review, approved, paid, locked, unknown,
  normalize_payroll_status, find_run,
}
use hidden_oasis_staff_payro.Payroll.Lifecycle.{
  Books, Request, is_final, allowed, is_superseded, changed_books, changed, update_payroll_status,
}
use hidden_oasis_staff_payro.Payroll.Lifecycle.Transitions.{IsMade, update-IsMade, guard-allowed}
use hidden_oasis_staff_payro.Payroll.Lifecycle.Written.{
  IsWritten, effects-IsWritten, written_others, written_run,
}

update-IsWritten :
    (run_id : ℕ) (req : Request) (b b' : Books)
    → (m : IsMade run_id req b b')
    → IsWritten run_id (normalize_payroll_status req.status) b.store.runs b'.store.runs
unfolding changed_books
update-IsWritten run_id req b b' m =
    let status = normalize_payroll_status req.status in
    subst (λ (x : Books). IsWritten run_id status b.store.runs x.store.runs) (sym m.result)
      (effects-IsWritten run_id m.run.status status req b)

-- A change that is made takes the run from a status to one that the table of transitions allows
-- from there, the one of the request; the run was not superseded, and all other runs stay as they are.
pub status-change :
    (run_id : ℕ) (req : Request) (b b' : Books)
    → update_payroll_status run_id req b ≡ changed b'
    → (run : Run) × (run' : Run) × (find_run run_id b.store.runs ≡ some run)
      × (find_run run_id b'.store.runs ≡ some run')
      × (run'.status ≡ normalize_payroll_status req.status)
      × (allowed run.status run'.status ≡ true)
      × (is_superseded run ≡ false)
      × ((j : ℕ) → j ≢ run_id → find_run j b'.store.runs ≡ find_run j b.store.runs)
status-change run_id req b b' h =
    let m = update-IsMade run_id req b b' h in
    let w = update-IsWritten run_id req b b' m in
    let (ok, current) = guard-allowed m.run (normalize_payroll_status req.status) req m.passes in
    (
      m.run,
      w.write m.run,
      m.found,
      written_run w m.run m.found,
      w.status_set m.run,
      subst (λ t. allowed m.run.status t ≡ true) (sym (w.status_set m.run)) ok,
      current,
      λ j ne. written_others w j ne,
    )

final-allowed : (s t : RunStatus) → is_final s ≡ true → allowed s t ≡ true → is_final t ≡ true
unfolding is_final allowed
final-allowed draft t f a = cc
final-allowed for_owner_review t f a = cc
final-allowed approved t f a = cc
final-allowed paid draft f a = cc
final-allowed paid for_owner_review f a = cc
final-allowed paid approved f a = cc
final-allowed paid paid f a = cc
final-allowed paid locked f a = refl
final-allowed paid (unknown u) f a = cc
final-allowed locked t f a = cc
final-allowed (unknown s) t f a = cc

-- A run that is paid or locked is paid or locked after every change that is made, to it or to
-- another run.
pub final_stays :
    (run_id : ℕ) (req : Request) (b b' : Books) (j : ℕ) (run : Run)
    → update_payroll_status run_id req b ≡ changed b'
    → find_run j b.store.runs ≡ some run
    → is_final run.status ≡ true
    → (run' : Run) × (find_run j b'.store.runs ≡ some run') × (is_final run'.status ≡ true)
final_stays run_id req b b' j run h found final =
    let (old, new, f, f', asked, ok, current, others) = status-change run_id req b b' h in
    elim (Bool-cases (j == run_id)) [
      | inr ne ↦ let differs : j ≢ run_id = ground arith in (run, others j differs ∙ found, final)
      | inl e ↦
          let same : j ≡ run_id = ground arith in
          let old_run : run ≡ old = cc in
          (
            new,
            subst (λ k. find_run k b'.store.runs ≡ some new) (sym same) f',
            final-allowed old.status new.status
                (subst (λ (r : Run). is_final r.status ≡ true) old_run final) ok,
          )
    ]
