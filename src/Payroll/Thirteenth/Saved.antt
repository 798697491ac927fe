-- ===== src/Payroll/Thirteenth/Saved.antt =====
-- A 13th month run is saved with the row and the lines of the request.
use hidden_oasis_staff_payro.Common.{
  ℕ, ◌≡◌, refl, sym, ap, ◌∙◌, inl, inr, true, not, ◌&&◌, none, some, List, [], ◌∷◌, ◌++◌, select,
  ◌==◌, if◌then◌else◌, ℤ, pos, ◌+ℤ◌, ◌-ℤ◌, arith, Bool-cases, zero, suc, negsuc, int_laws, ==_refl,
  codes, eq_text_refl,
}
use hidden_oasis_staff_payro.Payroll.Money.{money}
use hidden_oasis_staff_payro.Payroll.Thirteenth.{
  ThirteenthRun, ThirteenthLine, basis, earning, adjustment, deduction, LineKind, saved_run, Book,
  SaveRequest, base_13th, is_run_of, find_thirteenth, saved_thirteenth, upsert_thirteenth,
}
use hidden_oasis_staff_payro.Payroll.Thirteenth.Save.{
  is_left_out, is_zero, month_line, saved_lines, queue_13th_month, with_entry, announced,
  with_lines, save_13th_month_run, noted,
}

-- What a line adds to the net pay; the basis is only shown.
abbrev pub line_net : ThirteenthLine → ℤ
line_net line = elim line.kind [
  | basis ↦ pos 0
  | earning ↦ line.amount
  | adjustment ↦ line.amount
  | deduction ↦ pos 0 -ℤ line.amount
]

unfoldable pub lines_net : ℕ → List ThirteenthLine → ℤ
lines_net i [] = pos 0
lines_net i (line ∷ lines) =
    let rest = lines_net i lines in if line.run_id == i then line_net line +ℤ rest else rest

lines_net-without :
    (i : ℕ) (old new : List ThirteenthLine)
    → lines_net i (select (λ line. not (line.run_id == i)) old ++ new) ≡ lines_net i new
unfolding lines_net
lines_net-without i [] new = refl
lines_net-without i (line ∷ old) new = elim (Bool-cases (line.run_id == i)) [
  | inl here ↦ rw (here, if◌then◌else◌) (lines_net-without i old new)
  | inr other ↦ ground (arith, other, lines_net-without i old new)
]

no_amount : (z : ℤ) → is_zero z ≡ true → z ≡ pos 0
no_amount (pos zero) h = refl
no_amount (pos (suc n)) h = absurd (cc h)
no_amount (negsuc n) h = absurd (cc h)

left_out-net : (line : ThirteenthLine) → is_left_out line ≡ true → line_net line ≡ pos 0
left_out-net line h = by_kind line.kind line.amount h
  where
    by_kind :
        (k : LineKind) (z : ℤ)
        → is_left_out (month_line 0 k z [] 0) ≡ true
        → line_net (month_line 0 k z [] 0) ≡ pos 0
    by_kind basis z h = refl
    by_kind earning z h = absurd (cc h)
    by_kind adjustment z h = no_amount z h
    by_kind deduction z h = rw (no_amount z h) (grind int_laws)

zero_add : (z : ℤ) → pos 0 +ℤ z ≡ z
zero_add z = grind int_laws

lines_net-select :
    (i : ℕ) (l : List ThirteenthLine)
    → lines_net i (select (λ line. not (is_left_out line)) l) ≡ lines_net i l
unfolding lines_net
lines_net-select i [] = refl
lines_net-select i (line ∷ l) =
    let rest = lines_net-select i l in
    elim (Bool-cases (is_left_out line)) [
      | inl out ↦
          rw (out, not, if◌then◌else◌)
            (elim (Bool-cases (line.run_id == i)) [
              | inl here ↦
                  rw (here, if◌then◌else◌)
                    (rw (left_out-net line out) (rest ∙ sym (zero_add (lines_net i l))))
              | inr other ↦ rw (other, if◌then◌else◌) rest
            ])
      | inr kept ↦ ground (arith, kept, rest)
    ]

add-net : (a b d : ℤ) → pos 0 +ℤ (a +ℤ (b +ℤ ((pos 0 -ℤ d) +ℤ pos 0))) ≡ (a +ℤ b) -ℤ d
add-net a b d = grind int_laws

-- What the lines add up to: each amount is rounded by itself.
unfoldable pub shown_net : ℕ → SaveRequest → ℤ
unfolding base_13th
shown_net unit q = (base_13th unit q +ℤ money unit q.adjustment_amount) -ℤ money unit q.deductions

lines_net-saved :
    (unit : ℕ) (q : SaveRequest) (i : ℕ) → lines_net i (saved_lines unit q i) ≡ shown_net unit q
unfolding lines_net saved_lines shown_net
lines_net-saved unit q i =
    let all : List ThirteenthLine =
      month_line i basis (money unit q.basis_amount) (codes "Regular/basic pay + paid leave pay") 10
      ∷ month_line i earning (base_13th unit q) (codes "Basis / 12") 20
      ∷ month_line i adjustment (money unit q.adjustment_amount) q.notes 30
      ∷ month_line i deduction (money unit q.deductions) q.notes 40
      ∷ [] in
    let summed : lines_net i all ≡ shown_net unit q =
      rw (==_refl i, if◌then◌else◌)
        (add-net (base_13th unit q) (money unit q.adjustment_amount) (money unit q.deductions)) in
    lines_net-select i all ∙ summed

with_entry-kept :
    (q : SaveRequest) (i : ℕ) (b : Book)
    → ((with_entry q i b).runs ≡ b.runs) × ((with_entry q i b).lines ≡ b.lines)
unfolding with_entry queue_13th_month
with_entry-kept q i b = ground arith

announced-kept :
    (q : SaveRequest) (i : ℕ) (b : Book)
    → ((announced q i b).runs ≡ b.runs) × ((announced q i b).lines ≡ b.lines)
unfolding announced
announced-kept q i b = ground (arith, with_entry-kept q i b)

saved-is_run_of :
    (unit : ℕ) (q : SaveRequest) (i t : ℕ) → is_run_of q (saved_thirteenth unit q i t) ≡ true
unfolding saved_thirteenth
saved-is_run_of unit q i t =
    rw (==_refl q.employee_id, ==_refl q.year, eq_text_refl q.period_label, ◌&&◌) refl

find-saved :
    (unit : ℕ) (q : SaveRequest) (i t : ℕ) (runs : List ThirteenthRun)
    → find_thirteenth q (saved_thirteenth unit q i t ∷ runs) ≡ some (saved_thirteenth unit q i t)
unfolding find_thirteenth
find-saved unit q i t runs = rw (saved-is_run_of unit q i t, if◌then◌else◌) refl

find-upsert :
    (unit : ℕ) (q : SaveRequest) (next : ℕ) (runs : List ThirteenthRun)
    → (i : ℕ) × (t : ℕ) × (find_thirteenth q (upsert_thirteenth unit q next runs)
        ≡ some (saved_thirteenth unit q i t))
unfolding find_thirteenth upsert_thirteenth
find-upsert unit q next [] = (next, q.now, find-saved unit q next q.now [])
find-upsert unit q next (r ∷ runs) = elim (Bool-cases (is_run_of q r)) [
  | inl same ↦
      (r.id, r.created_at, rw (same, if◌then◌else◌) (find-saved unit q r.id r.created_at runs))
  | inr other ↦
      let (i, t, e) = find-upsert unit q next runs in
      (i, t, rw (other, if◌then◌else◌) (rw (other, if◌then◌else◌) e))
]

-- A save always returns the id of a run: the request's row is the saved one, and the lines of the run
-- are those of the request, whatever its lines were before.
pub saved-lines_net :
    (unit : ℕ) (q : SaveRequest) (b : Book)
    → (after : Book) × (id : ℕ) × (created_at : ℕ) × (save_13th_month_run unit q b
        ≡ some (after, id))
      × (find_thirteenth q after.runs ≡ some (saved_thirteenth unit q id created_at))
      × (lines_net id after.lines ≡ shown_net unit q)
unfolding save_13th_month_run with_lines saved_thirteenth
saved-lines_net unit q b =
    let runs = upsert_thirteenth unit q b.next_run_id b.runs in
    let next : ℕ = elim (find_thirteenth q b.runs) [
      | none ↦ suc b.next_run_id
      | some _ ↦ b.next_run_id
    ] in
    let (i, t, found) = find-upsert unit q b.next_run_id b.runs in
    let lined = noted q.prepared_by saved_run i (with_lines unit q i runs next b) in
    let (same_runs, same_lines) = announced-kept q i lined in
    (
      announced q i lined,
      i,
      t,
      rw (found, save_13th_month_run) refl,
      ap (find_thirteenth q) same_runs ∙ found,
      ap (lines_net i) same_lines
          ∙ (lines_net-without i b.lines (saved_lines unit q i) ∙ lines_net-saved unit q i),
    )
