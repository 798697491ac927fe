-- ===== src/Payroll/Manual/Posting.antt =====
-- What a recorded repayment does to the ledger and the outbox.
use hidden_oasis_staff_payro.Common.{
  ℕ, ◌+◌, ◌≤◌, ◌≡◌, refl, sym, subst, ap, ◌∙◌, true, some, [], ◌∷◌, ◌++◌, map, if◌then◌else◌, Text,
  codes, eq_text_refl, sum_by-append, arith,
}
use hidden_oasis_staff_payro.Outbox.Row.{Outbox}
use hidden_oasis_staff_payro.Outbox.Enqueue.{
  Enqueued, queued, no_transaction, missing, enqueue_event,
}
use hidden_oasis_staff_payro.Payroll.Ledger.{
  Ledger, LedgerAdvance, LedgerRepayment, Balance, opening_of, balance_from, find_ledger_advance,
  confirmed_new_repayments, is_confirmed, calculate_balance, recalculate_balance,
  recalculated_advance, ledger_where_id,
}
use hidden_oasis_staff_payro.Payroll.Ledger.Recalculated.{
  calculated, find-recalculated, balance_from-again,
}
use hidden_oasis_staff_payro.Payroll.Receipt.{insert_repayment, repayment_event}
use hidden_oasis_staff_payro.Payroll.Manual.{
  ManualRepaymentPayload, Cashbook, Recorded, repayment_refused, already_recorded, recorded,
  new_repayment, insert_and_queue, queue_repayment,
}

-- The ledger after a recalculation of the advance `a`.
abbrev pub relisted : ℕ → ℕ → Balance → Ledger → Ledger
relisted i now b l = record l {
  advances = map (ledger_where_id i (recalculated_advance b now)) l.advances;
}

pub recalculated :
    (l : Ledger) (i now : ℕ) (a : LedgerAdvance)
    → find_ledger_advance i l.advances ≡ some a
    → let b = balance_from a (confirmed_new_repayments l i) in
      recalculate_balance l i now ≡ some (relisted i now b l, b)
unfolding recalculate_balance
recalculated l i now a found = rw (calculated l i a found, recalculate_balance) refl

-- What a recorded repayment is: the row that is added, the event that is queued with it, and the
-- balance before and after.
pub record Posting (i amount now : ℕ) (payload : ManualRepaymentPayload) (who : Text) (o : Outbox)
    (l : Ledger) (id : ℕ) (b : Balance) (s : Cashbook) : Type 0 where
  pub before : Balance
  pub advance : LedgerAdvance
  pub queue_id : ℕ
  pub opening : ℕ
  pub calculated_before : calculate_balance l i ≡ some before
  pub balance_reduced : b.balance + amount ≡ before.balance
  pub paid_raised : b.paid ≡ before.paid + amount
  pub calculated_after : calculate_balance s.ledger i ≡ some b
  pub row : LedgerRepayment
  pub row_of : row ≡ new_repayment i payload amount advance who now id
  pub rows : s.ledger.repayments ≡ l.repayments ++ row ∷ []
  pub is_queued :
      enqueue_event true true (repayment_event row advance) now o ≡ queued queue_id s.outbox
  pub advance_after : LedgerAdvance
  pub found_after : find_ledger_advance i s.ledger.advances ≡ some advance_after
  pub opened_after : advance_after.ledger_opening_balance ≡ some opening

confirmed-insert :
    (l : Ledger) (i : ℕ) (r : LedgerRepayment)
    → is_confirmed l.runs i r ≡ true
    → confirmed_new_repayments (insert_repayment r l) i ≡ confirmed_new_repayments l i + r.amount
unfolding confirmed_new_repayments insert_repayment
confirmed-insert l i r h =
    let amount = λ (x : LedgerRepayment). if is_confirmed l.runs i x then x.amount else 0 in
    let here : amount r ≡ r.amount = rw h refl in
    omega (arith, sum_by-append amount l.repayments (r ∷ []), here)

new-is_confirmed :
    (i : ℕ) (payload : ManualRepaymentPayload) (amount : ℕ) (a : LedgerAdvance) (who : Text)
    (now id : ℕ) (l : Ledger)
    → is_confirmed l.runs i (new_repayment i payload amount a who now id) ≡ true
unfolding is_confirmed new_repayment
new-is_confirmed i payload amount a who now id l = ground (arith, eq_text_refl (codes "Manual"))

balance_from-more :
    (a : LedgerAdvance) (k amount now n : ℕ)
    → a.ledger_opening_balance ≡ some n
    → amount ≤ (balance_from a k).balance
    → let b = balance_from (recalculated_advance (balance_from a k) now a) (k + amount) in
      (b.balance + amount ≡ (balance_from a k).balance)
      × (b.paid ≡ (balance_from a k).paid + amount)
unfolding balance_from recalculated_advance opening_of
balance_from-more a k amount now n h enough =
    let opening : opening_of a ≡ n = rw (h, opening_of) refl in (ground arith, ground arith)

module _ (i amount now : ℕ) (payload : ManualRepaymentPayload) (who : Text) (o : Outbox) where
  abbrev pub IsPosted : Ledger → Recorded → Type 0
  IsPosted l (recorded id b s) = Posting i amount now payload who o l id b s
  IsPosted l (repayment_refused _) = Unit
  IsPosted l (already_recorded _ _) = Unit

  queue-IsPosted :
      (l l' : Ledger) (r : LedgerRepayment) (a : LedgerAdvance) (b : Balance)
      → ((q : ℕ) (o' : Outbox)
          → enqueue_event true true (repayment_event r a) now o ≡ queued q o'
          → Posting i amount now payload who o l r.id b (record { ledger = l'; outbox = o' }))
      → IsPosted l (queue_repayment r a now o (l', b))
  unfolding queue_repayment
  queue-IsPosted l l' r a b posting =
      by_event (enqueue_event true true (repayment_event r a) now o) refl
    where
      by_event :
          (e : Enqueued)
          → enqueue_event true true (repayment_event r a) now o ≡ e
          → IsPosted l (queue_repayment r a now o (l', b))
      by_event (queued q o') e = rw (e, queue_repayment) (posting q o' e)
      by_event no_transaction e = rw (e, queue_repayment) tt
      by_event missing e = rw (e, queue_repayment) tt

  pub insert-IsPosted :
      (l : Ledger) (a : LedgerAdvance) (n : ℕ)
      → find_ledger_advance i l.advances ≡ some a
      → a.ledger_opening_balance ≡ some n
      → amount ≤ (balance_from a (confirmed_new_repayments l i)).balance
      → IsPosted l (
          insert_and_queue i payload amount a who now o
            (relisted i now (balance_from a (confirmed_new_repayments l i)) l))
  unfolding insert_and_queue insert_repayment confirmed_new_repayments new_repayment
  insert-IsPosted l a n found opening enough =
      let k = confirmed_new_repayments l i in
      let before = balance_from a k in
      let l1 = relisted i now before l in
      let a1 = recalculated_advance before now a in
      let r = new_repayment i payload amount a who now l.next_repayment_id in
      let l2 = insert_repayment r l1 in
      let k2 = confirmed_new_repayments l2 i in
      let more : k2 ≡ k + amount =
        confirmed-insert l1 i r
          (new-is_confirmed i payload amount a who now l.next_repayment_id l1) in
      let b = balance_from a1 k2 in
      let found1 = find-recalculated i now before l.advances a found in
      let found2 = find-recalculated i now b l1.advances a1 found1 in
      let sums = balance_from-more a k amount now n opening enough in
      let after : calculate_balance (relisted i now b l2) i ≡ some b =
        calculated (relisted i now b l2) i (recalculated_advance b now a1) found2
        ∙ ap some (balance_from-again a1 k2 now n (unfold recalculated_advance in opening)) in
      rw (recalculated l2 i now a1 found1, insert_and_queue)
        (queue-IsPosted l (relisted i now b l2) r a b (λ q o' e. record {
          before = before;
          advance = a;
          queue_id = q;
          opening = n;
          calculated_before = calculated l i a found;
          balance_reduced =
              subst (λ x. (balance_from a1 x).balance + amount ≡ before.balance) (sym more) sums.0;
          paid_raised =
              subst (λ x. (balance_from a1 x).paid ≡ before.paid + amount) (sym more) sums.1;
          calculated_after = after;
          row = r;
          row_of = refl;
          rows = refl;
          is_queued = e;
          advance_after = recalculated_advance b now a1;
          found_after = found2;
          opened_after = unfold recalculated_advance in opening;
        }))
