-- ===== src/Payroll/Settle/Conserved.antt =====
-- What a settlement does to the credit, and to the other advances.
use hidden_oasis_staff_payro.Common.{
  ℕ, ◌+◌, ◌-◌, ◌≤◌, ◌≡◌, ◌≢◌, refl, sym, ◌∙◌, inl, inr, Option, some, List, [], ◌∷◌, ◌++◌, map,
  Text, arith, Option-cases,
}
use hidden_oasis_staff_payro.Payroll.Ledger.{
  Ledger, LedgerAdvance, Balance, balance_from, calculate_balance, confirmed_new_repayments,
  find_ledger_advance, ledger_where_id, recalculated_advance,
}
use hidden_oasis_staff_payro.Payroll.Ledger.Recalculated.{calculated, find-recalculated}
use hidden_oasis_staff_payro.Payroll.Manual.Posting.{recalculated, relisted}
use hidden_oasis_staff_payro.Payroll.Credit.{
  CreditBook, Settlement, SettlementResult, settlement_refused, settled, update_advance,
}
use hidden_oasis_staff_payro.Payroll.Credit.Corrected.{find-updated}
use hidden_oasis_staff_payro.Payroll.Settle.{credited_advance, finish_settlement}

find-other :
    (i t : ℕ) (f : LedgerAdvance → LedgerAdvance) (l : List LedgerAdvance) (a : LedgerAdvance)
    → ((a : LedgerAdvance) → (f a).id ≡ a.id)
    → i ≢ t
    → find_ledger_advance t l ≡ some a
    → find_ledger_advance t (map (ledger_where_id i f) l) ≡ some a
unfolding find_ledger_advance
find-other i t f [] a keeps other h = cc
find-other i t f (c ∷ l) a keeps other h = ground (arith, keeps c, find-other i t f l a keeps other)

-- A recalculation and an update of one advance keep what is calculated for another.
pub relisted-other :
    (i t now : ℕ) (b : Balance) (l : Ledger) (o : LedgerAdvance)
    → i ≢ t
    → find_ledger_advance t l.advances ≡ some o
    → find_ledger_advance t (relisted i now b l).advances ≡ some o
relisted-other i t now b l o other h =
    find-other i t (recalculated_advance b now) l.advances o
      (λ c. unfold recalculated_advance in refl) other h

pub calculated-found :
    (l : Ledger) (t : ℕ) (b : Balance)
    → calculate_balance l t ≡ some b
    → (o : LedgerAdvance) × (find_ledger_advance t l.advances ≡ some o)
unfolding calculate_balance
calculated-found l t b h = elim (Option-cases (find_ledger_advance t l.advances)) [
  | inl e ↦ absurd (cc (rw (e, calculate_balance) at h))
  | inr found ↦ found
]

-- What a settlement leaves: the entry, the credit, and the calculated balances of other advances.
abbrev pub IsSettled :
    ℕ → ℕ → CreditBook → Ledger → LedgerAdvance → Settlement → SettlementResult → Type 0
IsSettled i amount s l a entry (settlement_refused _) = Unit
IsSettled i amount s l a entry (settled m credit s') =
    (b : LedgerAdvance) × (m ≡ amount)
    × (credit + amount ≡ a.overpayment_credit)
    × (find_ledger_advance i s'.ledger.advances ≡ some b)
    × (b.overpayment_credit ≡ credit)
    × (s'.settlements ≡ s.settlements ++ entry ∷ [])
    × ((t : ℕ) (o : Balance)
        → i ≢ t
        → calculate_balance l t ≡ some o
        → calculate_balance s'.ledger t ≡ some o)

pub finish-IsSettled :
    (i amount : ℕ) (a : LedgerAdvance) (who : Option Text) (now : ℕ) (s : CreditBook)
    (entry : Settlement) (l : Ledger) (c : LedgerAdvance)
    → amount ≤ a.overpayment_credit
    → find_ledger_advance i l.advances ≡ some c
    → IsSettled i amount s l a entry (finish_settlement i amount a who now s entry l)
unfolding finish_settlement
finish-IsSettled i amount a who now s entry l c enough found =
    let f = credited_advance (a.overpayment_credit - amount) who now in
    let l1 = update_advance i f l in
    let found1 : find_ledger_advance i l1.advances ≡ some (f c) =
      find-updated i f l.advances c (λ c. unfold credited_advance in refl) found in
    let b = balance_from (f c) (confirmed_new_repayments l1 i) in
    let found2 = find-recalculated i now b l1.advances (f c) found1 in
    rw (recalculated l1 i now (f c) found1, finish_settlement)
      (
        recalculated_advance b now (f c),
        refl,
        omega arith,
        found2,
        unfold recalculated_advance credited_advance in refl,
        refl,
        λ t d other before.
            let (o, h) = calculated-found l t d before in
            let h1 = find-other i t f l.advances o (λ c. unfold credited_advance in refl) other h in
            let h2 = relisted-other i t now b l1 o other h1 in
            calculated (relisted i now b l1) t o h2
            ∙ unfold confirmed_new_repayments in sym (calculated l t o h) ∙ before,
      )

-- A settlement of a ledger that keeps what another calculates is one of that other.
pub IsSettled-before :
    (i amount : ℕ) (s : CreditBook) (l l' : Ledger) (a : LedgerAdvance) (entry : Settlement)
    (r : SettlementResult)
    → ((t : ℕ) (o : Balance) → calculate_balance l t ≡ some o → calculate_balance l' t ≡ some o)
    → IsSettled i amount s l' a entry r
    → IsSettled i amount s l a entry r
IsSettled-before i amount s l l' a entry (settlement_refused _) keeps h = tt
IsSettled-before i amount s l l' a entry (settled m credit s') keeps (b, p, q, f, g, e, others) =
    (b, p, q, f, g, e, λ t o other before. others t o other (keeps t o before))
