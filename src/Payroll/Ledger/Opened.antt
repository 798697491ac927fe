-- ===== src/Payroll/Ledger/Opened.antt =====
-- What `ensure_schema` leaves of the balances: the same when it runs again, and an opening balance
-- for each advance.
use mathlib.Core.Option
use hidden_oasis_staff_payro.Common.{
  ℕ, zero, suc, ◌≡◌, refl, ap, ◌∙◌, inl, inr, Option-cases, Option, none, some, List, [], ◌∷◌, map,
  arith,
}
use hidden_oasis_staff_payro.Payroll.Ledger.{
  Ledger, LedgerAdvance, opened_advance, balanced_advance, ensure_balances, find_ledger_advance,
  ensured_remaining, ensured_outstanding, first_or,
}

abbrev pub ensured : LedgerAdvance → LedgerAdvance
ensured a = balanced_advance (opened_advance a)

remaining-again :
    (r p : Option ℕ) (m : ℕ)
    → ensured_remaining (some (ensured_remaining r p m)) (some (ensured_outstanding r p m)) m
      ≡ ensured_remaining r p m
remaining-again none none zero = refl
remaining-again none none (suc m) = refl
remaining-again none (some zero) m = refl
remaining-again none (some (suc p)) m = refl
remaining-again (some zero) none zero = refl
remaining-again (some zero) none (suc m) = refl
remaining-again (some zero) (some zero) m = refl
remaining-again (some zero) (some (suc p)) m = refl
remaining-again (some (suc r)) p m = refl

outstanding-again :
    (r p : Option ℕ) (m : ℕ)
    → ensured_outstanding (some (ensured_remaining r p m)) (some (ensured_outstanding r p m)) m
      ≡ ensured_outstanding r p m
outstanding-again none none zero = refl
outstanding-again none none (suc m) = refl
outstanding-again none (some zero) m = refl
outstanding-again none (some (suc p)) m = refl
outstanding-again (some zero) none zero = refl
outstanding-again (some zero) none (suc m) = refl
outstanding-again (some zero) (some zero) m = refl
outstanding-again (some zero) (some (suc p)) m = refl
outstanding-again (some (suc r)) none m = refl
outstanding-again (some (suc r)) (some zero) m = refl
outstanding-again (some (suc r)) (some (suc p)) m = refl

ensured-again : (a : LedgerAdvance) → ensured (ensured a) ≡ ensured a
unfolding opened_advance balanced_advance
ensured-again a = cc (
  remaining-again a.remaining_balance a.outstanding_balance a.amount,
  outstanding-again a.remaining_balance a.outstanding_balance a.amount,
)

rows-again : (l : List LedgerAdvance) → map ensured (map ensured l) ≡ map ensured l
rows-again [] = refl
rows-again (a ∷ l) = cc (ensured-again a, rows-again l)

pub find-ensured :
    (i : ℕ) (l : List LedgerAdvance)
    → find_ledger_advance i (map ensured l) ≡ Option.map ensured (find_ledger_advance i l)
unfolding find_ledger_advance opened_advance balanced_advance
find-ensured i [] = refl
find-ensured i (a ∷ l) = ground (arith, find-ensured i l)

-- Filling in the balances of a ledger again changes nothing.
ensure_balances-again : (l : Ledger) → ensure_balances (ensure_balances l) ≡ ensure_balances l
unfolding ensure_balances
ensure_balances-again l = ap (λ rows. record l { advances = rows }) (rows-again l.advances)

pub ensured-opening :
    (i : ℕ) (l : Ledger) (a : LedgerAdvance)
    → find_ledger_advance i (ensure_balances l).advances ≡ some a
    → (n : ℕ) × (a.ledger_opening_balance ≡ some n)
unfolding ensure_balances opened_advance balanced_advance
ensured-opening i l a h = elim (Option-cases (find_ledger_advance i l.advances)) [
  | inl e ↦
      let lost = find-ensured i l.advances ∙ ap (Option.map ensured) e in absurd (cc (h, lost))
  | inr (c, e) ↦
      let found = find-ensured i l.advances ∙ ap (Option.map ensured) e in
      (
        first_or c.ledger_opening_balance
            (first_or c.outstanding_balance (first_or c.remaining_balance c.amount)),
        cc (h, found),
      )
]
