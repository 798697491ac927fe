-- ===== src/Payroll/Thirteenth/Once.antt =====
-- A 13th month run has one journal entry, however often it is saved.
use hidden_oasis_staff_payro.Common.{
  ℕ, ◌≡◌, ◌≤◌, refl, subst, inl, inr, false, some, none, List, [], ◌∷◌, ◌++◌, ◌==◌, if◌then◌else◌,
  some_row, Text, arith, Bool-cases, Option-cases, sum_by, sum_by-append, ==_iff, if_both, suc,
}
use hidden_oasis_staff_payro.Payroll.Thirteenth.{
  ThirteenthEntry, Book, SaveRequest, find_thirteenth, upsert_thirteenth, saved_run,
}
use hidden_oasis_staff_payro.Payroll.Thirteenth.Save.{
  find_id, journal_entry, is_payable_run, queue_13th_month, with_entry, announced, with_lines,
  noted, save_13th_month_run,
}

abbrev pub entry_count : ℕ → List ThirteenthEntry → ℕ
entry_count i entries = sum_by (λ e. if e.source_id == i then 1 else 0) entries

none-counted :
    (i : ℕ) (l : List ThirteenthEntry)
    → some_row (λ e. e.source_id == i) l ≡ false
    → entry_count i l ≡ 0
none-counted i [] h = refl
none-counted i (e ∷ l) h = ground (arith, none-counted i l)

appended-once :
    (i : ℕ) (l : List ThirteenthEntry) (e : ThirteenthEntry)
    → some_row (λ x. x.source_id == e.source_id) l ≡ false
    → entry_count i l ≤ 1
    → entry_count i (l ++ e ∷ []) ≤ 1
appended-once i l e fresh h =
    let split = sum_by-append (λ x. if x.source_id == i then 1 else 0) l (e ∷ []) in
    elim (Bool-cases (e.source_id == i)) [
      | inl same ↦
          let at_i : some_row (λ x. x.source_id == i) l ≡ false =
            subst (λ n. some_row (λ x. x.source_id == n) l ≡ false) ((==_iff e.source_id i).0 same)
              fresh in
          let before = none-counted i l at_i in ground (arith, split, before)
      | inr other ↦ ground (arith, split, other)
    ]

queue-once :
    (i run_id : ℕ) (today : Text) (b : Book)
    → entry_count i b.entries ≤ 1
    → entry_count i (queue_13th_month run_id today b).entries ≤ 1
unfolding queue_13th_month
queue-once i run_id today b h =
    elim (Bool-cases (some_row (λ e. e.source_id == run_id) b.entries)) [
      | inl entered ↦ rw (entered, if◌then◌else◌) h
      | inr fresh ↦
          rw (fresh, if◌then◌else◌)
            (elim (Option-cases (find_id run_id b.runs)) [
              | inl lost ↦ rw (lost, queue_13th_month) h
              | inr (run, found) ↦
                  rw (found, queue_13th_month)
                    (if_both (λ (x : Book). entry_count i x.entries ≤ 1) (is_payable_run b run)
                      (appended-once i b.entries (journal_entry run_id today run) fresh h) h)
            ])
    ]

announced-once :
    (i run_id : ℕ) (q : SaveRequest) (b : Book)
    → entry_count i b.entries ≤ 1
    → entry_count i (announced q run_id b).entries ≤ 1
unfolding announced with_entry
announced-once i run_id q b h = ground (arith, queue-once i run_id q.today b h)

-- However a run is saved, no run gets a second entry in the queue of the journal.
pub save_13th_month_run-once :
    (unit : ℕ) (q : SaveRequest) (b after : Book) (id i : ℕ)
    → save_13th_month_run unit q b ≡ some (after, id)
    → entry_count i b.entries ≤ 1
    → entry_count i after.entries ≤ 1
unfolding save_13th_month_run with_lines
save_13th_month_run-once unit q b after id i h once =
    let runs = upsert_thirteenth unit q b.next_run_id b.runs in
    let next : ℕ = elim (find_thirteenth q b.runs) [
      | none ↦ suc b.next_run_id
      | some _ ↦ b.next_run_id
    ] in
    elim (Option-cases (find_thirteenth q runs)) [
      | inl lost ↦ absurd (cc (rw (lost, save_13th_month_run) at h))
      | inr (row, found) ↦
          let lined = noted q.prepared_by saved_run row.id (with_lines unit q row.id runs next b) in
          let same : some (announced q row.id lined, row.id) ≡ some (after, id) =
            rw (found, save_13th_month_run) at h in
          let to : announced q row.id lined ≡ after = cc same in
          subst (λ x. entry_count i x.entries ≤ 1) to (announced-once i row.id q lined once)
    ]
