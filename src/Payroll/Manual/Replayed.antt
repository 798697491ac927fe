-- ===== src/Payroll/Manual/Replayed.antt =====
-- A repeated request is answered with the repayment that is there.
use mathlib.Core.Option
use hidden_oasis_staff_payro.Common.{
  ℕ, ◌≡◌, refl, sym, subst, ap, ◌∙◌, true, Option, none, some, List, [], ◌∷◌, ◌++◌, ==_refl,
  if◌then◌else◌, pos, ltb_ℤ, pos_part, Text, codes, eq_text, eq_text_refl, lower, lower_code, strip,
  arith,
}
use hidden_oasis_staff_payro.Outbox.Row.{ensure_integration_schema}
use hidden_oasis_staff_payro.Payroll.Ledger.{
  Ledger, LedgerAdvance, LedgerRepayment, Balance, calculate_balance, ensure_balances, balance_from,
  opening_of, opened_advance, balanced_advance, confirmed_new_repayments, find_ledger_advance,
}
use hidden_oasis_staff_payro.Payroll.Ledger.Opened.{find-ensured}
use hidden_oasis_staff_payro.Payroll.Ledger.Recalculated.{calculated}
use hidden_oasis_staff_payro.Payroll.Receipt.{text_or}
use hidden_oasis_staff_payro.Payroll.Manual.Bounded.{record_manual_repayment-Posting}
use hidden_oasis_staff_payro.Payroll.Manual.{
  ManualRepaymentPayload, Cashbook, already_recorded, recorded, new_repayment, record_or_replay,
  replayed, record_manual_repayment, find_by_key, has_key, same_request,
}

find-insert :
    (key : Text) (rows : List LedgerRepayment) (r : LedgerRepayment)
    → find_by_key key rows ≡ none
    → has_key key r ≡ true
    → find_by_key key (rows ++ r ∷ []) ≡ some r
unfolding find_by_key
find-insert key [] r h k = rw (k, find_by_key) refl
find-insert key (x ∷ rows) r h k = ground (arith, find-insert key rows r)

is_manual : eq_text (lower (codes "Manual")) (codes "manual") ≡ true
unfolding eq_text lower lower_code
is_manual = refl

new-same_request :
    (i : ℕ) (payload : ManualRepaymentPayload) (amount : ℕ) (a : LedgerAdvance) (who : Text)
    (now id : ℕ)
    → strip payload.payment_method ≡ payload.payment_method
    → same_request i payload amount (new_repayment i payload amount a who now id) ≡ true
unfolding same_request new_repayment
new-same_request i payload amount a who now id h =
    rw
      (
        ==_refl i,
        is_manual,
        ==_refl amount,
        eq_text_refl payload.repayment_date,
        h,
        eq_text_refl payload.payment_method,
        eq_text_refl (text_or payload.reference),
        eq_text_refl (text_or payload.notes),
        same_request,
      )
      refl

ensured-calculate :
    (l : Ledger) (i : ℕ) (a : LedgerAdvance) (n : ℕ)
    → find_ledger_advance i l.advances ≡ some a
    → a.ledger_opening_balance ≡ some n
    → calculate_balance (ensure_balances l) i ≡ calculate_balance l i
unfolding ensure_balances
ensured-calculate l i a n found opening =
    let c = balanced_advance (opened_advance a) in
    let found' = find-ensured i l.advances ∙ ap (Option.map _) found in
    calculated (ensure_balances l) i c found'
    ∙ unfold balance_from opening_of opened_advance balanced_advance confirmed_new_repayments in
      rw (opening, opening_of) refl ∙ sym (calculated l i a found)

new-has_key :
    (i : ℕ) (payload : ManualRepaymentPayload) (amount : ℕ) (a : LedgerAdvance) (who key : Text)
    (now id : ℕ)
    → payload.idempotency_key ≡ some key
    → has_key key (new_repayment i payload amount a who now id) ≡ true
unfolding new_repayment
new-has_key i payload amount a who key now id k = rw (k, has_key) (eq_text_refl key)

replay-known :
    (from_iso : Text → Option ℕ) (i : ℕ) (payload : ManualRepaymentPayload) (amount : ℕ)
    (key who : Text) (now : ℕ) (r : LedgerRepayment) (b : Balance) (s : Cashbook)
    → payload.idempotency_key ≡ some key
    → find_by_key key s.ledger.repayments ≡ some r
    → same_request i payload amount r ≡ true
    → calculate_balance s.ledger i ≡ some b
    → record_or_replay from_iso i payload amount who now s ≡ already_recorded r.id b
unfolding record_or_replay replayed
replay-known from_iso i payload amount key who now r b s k found same after =
    simp (k, record_or_replay)
      (rw (found, record_or_replay) (rw (same, if◌then◌else◌) (rw (after, replayed) refl)))

-- A request that was recorded under a key that no repayment had, and whose method has no white space
-- around it, is answered with the repayment and the balance of the first time when it is sent again
-- to the tables that it left, whoever sends it and whenever: no second repayment is recorded.
pub record_manual_repayment-again :
    (from_iso : Text → Option ℕ) (i : ℕ) (payload : ManualRepaymentPayload) (key who who' : Text)
    (now now' : ℕ) (s s' : Cashbook) (id : ℕ) (b : Balance)
    → record_manual_repayment from_iso i payload who now s ≡ recorded id b s'
    → payload.idempotency_key ≡ some key
    → strip payload.payment_method ≡ payload.payment_method
    → find_by_key key s.ledger.repayments ≡ none
    → record_manual_repayment from_iso i payload who' now' s' ≡ already_recorded id b
unfolding record_manual_repayment ensure_balances new_repayment
record_manual_repayment-again from_iso i payload key who who' now now' s s' id b h k m fresh =
    let (amount, whole, positive, posting) =
      record_manual_repayment-Posting from_iso i payload who now s s' id b h in
    let keyed : has_key key posting.row ≡ true =
      subst (λ r. has_key key r ≡ true) (sym posting.row_of)
        (new-has_key i payload amount posting.advance who key now id k) in
    let found : find_by_key key s'.ledger.repayments ≡ some posting.row =
      rw posting.rows (find-insert key s.ledger.repayments posting.row fresh keyed) in
    let same : same_request i payload amount posting.row ≡ true =
      subst (λ r. same_request i payload amount r ≡ true) (sym posting.row_of)
        (new-same_request i payload amount posting.advance who now id m) in
    let after : calculate_balance (ensure_balances s'.ledger) i ≡ some b =
      ensured-calculate s'.ledger i posting.advance_after posting.opening posting.found_after
        posting.opened_after
      ∙ posting.calculated_after in
    let s2 : Cashbook = record {
      ledger = ensure_balances s'.ledger;
      outbox = ensure_integration_schema s'.outbox;
    } in
    let accepted : ltb_ℤ (pos 0) payload.amount ≡ true = rw whole (ground arith) in
    let replayed_again : record_or_replay from_iso i payload (pos_part payload.amount) who' now' s2
        ≡ already_recorded posting.row.id b =
      replay-known from_iso i payload (pos_part payload.amount) key who' now' posting.row b s2 k
        found (subst (λ x. same_request i payload (pos_part x) posting.row ≡ true) (sym whole) same)
        after in
    let named : posting.row.id ≡ id = cc (ap (λ (r : LedgerRepayment). r.id) posting.row_of) in
    simp (accepted, record_manual_repayment) (replayed_again ∙ ap (λ x. already_recorded x b) named)
