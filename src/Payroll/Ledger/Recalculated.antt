-- ===== src/Payroll/Ledger/Recalculated.antt =====
-- What a recalculation leaves: the balance that it reports, and the same when it runs again.
use hidden_oasis_staff_payro.Common.{
  ℕ, ◌+◌, ◌-◌, ◌≤◌, ◌≡◌, refl, ap, ◌∙◌, Option, none, some, List, [], ◌∷◌, map, arith,
}
use hidden_oasis_staff_payro.Payroll.Ledger.{
  Ledger, LedgerAdvance, LedgerStatus, cancelled, fully_repaid, partially_repaid, active_advance,
  pending_advance, rejected, approved_advance, released_advance, another_status, Balance,
  opening_of, next_ledger_status, balance_from, find_ledger_advance, confirmed_new_repayments,
  calculate_balance, recalculated_advance, ledger_where_id, recalculate_balance,
}

-- The status of a recalculation is its own next status.
pub next-next :
    (s : LedgerStatus) (b p : ℕ)
    → next_ledger_status (next_ledger_status s b p) b p ≡ next_ledger_status s b p
unfolding next_ledger_status
next-next cancelled b p = refl
next-next fully_repaid b p = ground arith
next-next partially_repaid b p = ground arith
next-next active_advance b p = ground arith
next-next pending_advance b p = ground arith
next-next rejected b p = ground arith
next-next approved_advance b p = ground arith
next-next released_advance b p = ground arith
next-next (another_status t) b p = ground arith

pub find-recalculated :
    (i now : ℕ) (b : Balance) (l : List LedgerAdvance) (a : LedgerAdvance)
    → find_ledger_advance i l ≡ some a
    → find_ledger_advance i (map (ledger_where_id i (recalculated_advance b now)) l)
      ≡ some (recalculated_advance b now a)
unfolding find_ledger_advance recalculated_advance
find-recalculated i now b [] a h = cc
find-recalculated i now b (c ∷ l) a h = ground (arith, find-recalculated i now b l a)

pub balance_from-again :
    (a : LedgerAdvance) (k now n : ℕ)
    → a.ledger_opening_balance ≡ some n
    → balance_from (recalculated_advance (balance_from a k) now a) k ≡ balance_from a k
unfolding balance_from recalculated_advance opening_of
balance_from-again a k now n h =
    rw (h, opening_of)
      (ap
        (λ s. record { amount = a.amount; paid = (a.amount - n) + k; balance = n - k; status = s })
        (next-next a.status (n - k) ((a.amount - n) + k)))

pub calculated :
    (l : Ledger) (i : ℕ) (a : LedgerAdvance)
    → find_ledger_advance i l.advances ≡ some a
    → calculate_balance l i ≡ some (balance_from a (confirmed_new_repayments l i))
unfolding calculate_balance
calculated l i a found = rw (found, calculate_balance) refl

opening-balance_from :
    (a : LedgerAdvance) (k n : ℕ)
    → a.ledger_opening_balance ≡ some n
    → n ≤ a.amount
    → k ≤ n
    → (balance_from a k).paid + (balance_from a k).balance ≡ a.amount
unfolding balance_from opening_of
opening-balance_from a k n h low enough =
    let opening : opening_of a ≡ n = rw (h, opening_of) refl in omega arith

-- The row agrees with the balance that was reported.
abbrev pub IsStored : Balance → Option LedgerAdvance → Type 0
IsStored b none = ⊥
IsStored b (some a) =
    (a.remaining_balance ≡ some b.balance)
    × (a.outstanding_balance ≡ some b.balance)
    × (a.status ≡ b.status)

-- Recalculating an advance with a ledger opening balance succeeds: it reports what the calculation
-- gives, stores it in the row, and leaves a ledger where the calculation gives the same again. Where
-- the opening balance is at most the amount, and the confirmed repayments are at most the opening
-- balance, what is paid and what is left make up the amount.
pub recalculate-calculate :
    (l : Ledger) (i now : ℕ) (a : LedgerAdvance) (n : ℕ)
    → find_ledger_advance i l.advances ≡ some a
    → a.ledger_opening_balance ≡ some n
    → (l' : Ledger) × (b : Balance) × (recalculate_balance l i now ≡ some (l', b))
      × (calculate_balance l i ≡ some b)
      × (calculate_balance l' i ≡ some b)
      × IsStored b (find_ledger_advance i l'.advances)
      × (n ≤ a.amount → confirmed_new_repayments l i ≤ n → b.paid + b.balance ≡ a.amount)
unfolding recalculate_balance confirmed_new_repayments
recalculate-calculate l i now a n found opening =
    let k = confirmed_new_repayments l i in
    let b = balance_from a k in
    let rows = map (ledger_where_id i (recalculated_advance b now)) l.advances in
    let l' = record l { advances = rows } in
    let stored = find-recalculated i now b l.advances a found in
    (
      l',
      b,
      rw (calculated l i a found, recalculate_balance) refl,
      calculated l i a found,
      calculated l' i (recalculated_advance b now a) stored
          ∙ ap some (balance_from-again a k now n opening),
      rw stored (unfold recalculated_advance in (refl, refl, refl)),
      λ low enough. opening-balance_from a k n opening low enough,
    )
