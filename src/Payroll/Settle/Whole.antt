-- ===== src/Payroll/Settle/Whole.antt =====
-- A settlement as a whole: the credit falls by the amount, and no other balance changes.
use hidden_oasis_staff_payro.Common.{
  ℕ, ◌+◌, ◌<◌, ◌≤◌, ◌≡◌, ◌≢◌, refl, subst, inl, inr, not, Option, none, some, [], ◌∷◌, ◌++◌, ◌==◌,
  if◌then◌else◌, ltb, eq_text, strip, pos_part, Text, arith, Bool-cases, Option-cases,
}
use hidden_oasis_staff_payro.Payroll.Ledger.{
  Ledger, LedgerAdvance, Balance, calculate_balance, find_ledger_advance, ensure_balances,
}
use hidden_oasis_staff_payro.Payroll.Ledger.Opened.{ensured-opening}
use hidden_oasis_staff_payro.Payroll.Manual.Posting.{recalculated}
use hidden_oasis_staff_payro.Payroll.Credit.{
  CreditBook, Settlement, settled, CreditSettlementPayload, settlement_entry, settlement_guard,
  offset_method, target_of,
}
use hidden_oasis_staff_payro.Payroll.Settle.{settle_target, settle_from, settle_cash_advance_credit}
use hidden_oasis_staff_payro.Payroll.Settle.Conserved.{IsSettled, finish-IsSettled}
use hidden_oasis_staff_payro.Payroll.Settle.Offset.{offset-IsSettled}

target-IsSettled :
    (i t amount : ℕ) (a : LedgerAdvance) (note : Text) (payload : CreditSettlementPayload)
    (who : Option Text) (today : Text) (now : ℕ) (s : CreditBook) (entry : Settlement) (l : Ledger)
    → amount ≤ a.overpayment_credit
    → find_ledger_advance i l.advances ≡ some a
    → ((o : LedgerAdvance)
        → find_ledger_advance t l.advances ≡ some o
        → (n : ℕ) × (o.ledger_opening_balance ≡ some n))
    → IsSettled i amount s l a entry
        (settle_target i t amount a note payload who today now s entry l)
unfolding settle_target
target-IsSettled i t amount a note payload who today now s entry l enough found opened =
    elim (Bool-cases (t == i)) [
      | inl same ↦ rw (same, if◌then◌else◌) tt
      | inr other ↦
          rw (other, if◌then◌else◌)
            (elim (Option-cases (find_ledger_advance t l.advances)) [
              | inl e ↦ rw (e, settle_target) tt
              | inr (o, e) ↦
                  rw (e, settle_target)
                    (elim (Bool-cases (o.employee_id == a.employee_id)) [
                      | inr foreign ↦ rw (foreign, not, if◌then◌else◌) tt
                      | inl own ↦
                          rw (own, not, if◌then◌else◌)
                            (rw (recalculated l t now o e, settle_target)
                              (offset-IsSettled i t amount a note payload who today now s entry l a
                                o (opened o e).0 enough (ground arith) found e (opened o e).1))
                    ])
            ])
    ]

abbrev pub chosen_target : Text → CreditSettlementPayload → Option ℕ
chosen_target method payload =
    if eq_text method offset_method then target_of payload.target_cash_advance_id else none

settle_from-IsSettled :
    (i amount : ℕ) (a : LedgerAdvance) (method note : Text) (payload : CreditSettlementPayload)
    (who : Option Text) (today : Text) (now : ℕ) (s : CreditBook) (l : Ledger)
    → find_ledger_advance i l.advances ≡ some a
    → ((t : ℕ) (o : LedgerAdvance)
        → find_ledger_advance t l.advances ≡ some o
        → (n : ℕ) × (o.ledger_opening_balance ≡ some n))
    → IsSettled i amount s l a
        (settlement_entry i amount method note payload (chosen_target method payload) who now a)
        (settle_from i amount method note payload who today now s l a)
unfolding settle_from
settle_from-IsSettled i amount a method note payload who today now s l found opened =
    elim (Bool-cases (ltb 0 a.overpayment_credit)) [
      | inr none_left ↦ rw (none_left, not, if◌then◌else◌) tt
      | inl some_left ↦
          rw (some_left, not, if◌then◌else◌)
            (elim (Bool-cases (ltb a.overpayment_credit amount)) [
              | inl over ↦ rw (over, if◌then◌else◌) tt
              | inr within ↦
                  rw (within, if◌then◌else◌)
                    (elim (Option-cases (chosen_target method payload)) [
                      | inl e ↦
                          rw (e, settle_from)
                            (finish-IsSettled i amount a who now s
                              (settlement_entry i amount method note payload none who now a) l a
                              (ground arith) found)
                      | inr (t, e) ↦
                          rw (e, settle_from)
                            (target-IsSettled i t amount a note payload who today now s
                              (settlement_entry i amount method note payload (some t) who now a) l
                              (ground arith) found (opened t))
                    ])
            ])
    ]

settle-IsSettled :
    (i : ℕ) (payload : CreditSettlementPayload) (who : Option Text) (today : Text) (now : ℕ)
    (s s' : CreditBook) (m credit : ℕ)
    → settle_cash_advance_credit i payload who today now s ≡ settled m credit s'
    → let l = ensure_balances s.ledger in
      (a : LedgerAdvance) × (entry : Settlement) × (find_ledger_advance i l.advances ≡ some a)
      × (0 < pos_part payload.amount)
      × (entry.amount ≡ pos_part payload.amount)
      × IsSettled i (pos_part payload.amount) s l a entry (settled m credit s')
unfolding settle_cash_advance_credit settlement_guard settlement_entry
settle-IsSettled i payload who today now s s' m credit h =
    let l = ensure_balances s.ledger in
    let amount = pos_part payload.amount in
    let method = strip payload.method in
    let note = strip payload.note in
    let guard = settlement_guard amount method note (target_of payload.target_cash_advance_id) in
    elim (Option-cases guard) [
      | inr (e, refused) ↦ absurd (cc (rw (refused, settle_cash_advance_credit) at h))
      | inl passed ↦ elim (Option-cases (find_ledger_advance i l.advances)) [
        | inl lost ↦ absurd (cc (rw (passed, lost, settle_cash_advance_credit) at h))
        | inr (a, found) ↦
            let done : settle_from i amount method note payload who today now s l a
                ≡ settled m credit s' =
              rw (passed, found, settle_cash_advance_credit) at h in
            let entry =
              settlement_entry i amount method note payload (chosen_target method payload) who now
                a in
            (
              a,
              entry,
              found,
              ground arith,
              refl,
              subst (IsSettled i amount s l a entry) done (
                  settle_from-IsSettled i amount a method note payload who today now s l found
                    (λ t o e. ensured-opening t s.ledger o e)),
            )
      ]
    ]

-- A settlement that succeeds is of a positive amount, which is at most the credit of the advance: the
-- credit falls by it, and an entry of it is added to the settlements.
pub settle-credit :
    (i : ℕ) (payload : CreditSettlementPayload) (who : Option Text) (today : Text) (now : ℕ)
    (s s' : CreditBook) (m credit : ℕ)
    → settle_cash_advance_credit i payload who today now s ≡ settled m credit s'
    → let l = ensure_balances s.ledger in
      (a b : LedgerAdvance) × (entry : Settlement) × (find_ledger_advance i l.advances ≡ some a)
      × (find_ledger_advance i s'.ledger.advances ≡ some b)
      × (0 < m)
      × (b.overpayment_credit + m ≡ a.overpayment_credit)
      × (b.overpayment_credit ≡ credit)
      × (s'.settlements ≡ s.settlements ++ entry ∷ [])
      × (entry.amount ≡ m)
settle-credit i payload who today now s s' m credit h =
    let (a, entry, found, positive, entered, done) =
      settle-IsSettled i payload who today now s s' m credit h in
    let (b, whole, falls, found', left, added, others) = done in
    (a, b, entry, found, found', omega arith, omega arith, left, added, omega arith)

-- A settlement that succeeds leaves what is calculated for every other advance as it was, also for
-- the target of an offset.
pub settle-others :
    (i : ℕ) (payload : CreditSettlementPayload) (who : Option Text) (today : Text) (now : ℕ)
    (s s' : CreditBook) (m credit t : ℕ) (o : Balance)
    → settle_cash_advance_credit i payload who today now s ≡ settled m credit s'
    → i ≢ t
    → calculate_balance (ensure_balances s.ledger) t ≡ some o
    → calculate_balance s'.ledger t ≡ some o
settle-others i payload who today now s s' m credit t o h other before =
    let (a, entry, found, positive, entered, done) =
      settle-IsSettled i payload who today now s s' m credit h in
    let (b, whole, falls, found', left, added, others) = done in others t o other before
