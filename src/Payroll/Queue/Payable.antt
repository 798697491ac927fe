-- ===== src/Payroll/Queue/Payable.antt =====
-- What the journal lines of a run leave on Salaries Payable.
use hidden_oasis_staff_payro.Common.{
  ◌≡◌, refl, if◌then◌else◌, sym, ap, ◌∙◌, Bool, true, false, List, [], ◌∷◌, select, All, arith, ℤ,
  pos, ◌+ℤ◌, ◌-ℤ◌, ◌≤ℤ◌, ltb_ℤ, int_laws,
}
use hidden_oasis_staff_payro.Payroll.Store.{Item}
use hidden_oasis_staff_payro.Payroll.Queue.{
  Account, salaries_payable, Line, total, lines, is_posted, posted_lines,
}

abbrev is_payable : Account → Bool
is_payable salaries_payable = true
is_payable _ = false

-- What one line adds to the credit balance of Salaries Payable.
unfoldable pub payable_change : Line → ℤ
payable_change line =
    (if is_payable line.credit_account then line.amount else pos 0)
    -ℤ (if is_payable line.debit_account then line.amount else pos 0)

unfoldable pub payable_balance : List Line → ℤ
payable_balance [] = pos 0
payable_balance (line ∷ rest) = payable_change line +ℤ payable_balance rest

no_amount : (z : ℤ) → pos 0 ≤ℤ z → ltb_ℤ (pos 0) z ≡ false → z ≡ pos 0
no_amount z nn h = ground arith

no_change :
    (debit credit : Bool)
    → (if credit then pos 0 else pos 0) -ℤ (if debit then pos 0 else pos 0) ≡ pos 0
unfolding ◌-ℤ◌
no_change true true = refl
no_change true false = refl
no_change false true = refl
no_change false false = refl

unposted-change :
    (line : Line) → pos 0 ≤ℤ line.amount → is_posted line ≡ false → payable_change line ≡ pos 0
unfolding payable_change
unposted-change line nn h =
    rw (no_amount line.amount nn h)
      (no_change (is_payable line.debit_account) (is_payable line.credit_account))

zero_add : (z : ℤ) → pos 0 +ℤ z ≡ z
zero_add z = grind int_laws

-- The lines of no amount change no balance.
posted-balance :
    (l : List Line)
    → All (λ line. pos 0 ≤ℤ line.amount) l
    → payable_balance (select is_posted l) ≡ payable_balance l
unfolding payable_balance
posted-balance [] nn = refl
posted-balance (line ∷ l) (n, nn) = by_test (is_posted line) refl (posted-balance l nn)
  where
    by_test :
        (b : Bool)
        → is_posted line ≡ b
        → payable_balance (select is_posted l) ≡ payable_balance l
        → payable_balance (if b then line ∷ select is_posted l else select is_posted l)
          ≡ payable_change line +ℤ payable_balance l
    by_test true e rest = ap (λ z. payable_change line +ℤ z) rest
    by_test false e rest = rw (unposted-change line n e) (rest ∙ sym (zero_add (payable_balance l)))

-- An item's net pay is its gross pay less all of its deductions.
abbrev pub IsBalanced : Item → Type 0
IsBalanced i =
    i.net_pay
    ≡ i.gross_pay
      -ℤ (i.sss_ee +ℤ i.philhealth_ee +ℤ i.pagibig_ee +ℤ i.tax +ℤ i.other_deductions
          +ℤ i.cash_advance_deduction)

add-add : (a b c d : ℤ) → (a +ℤ b) +ℤ (c +ℤ d) ≡ (a +ℤ c) +ℤ (b +ℤ d)
add-add a b c d = grind int_laws

sub-add : (a b c d : ℤ) → (a -ℤ b) +ℤ (c -ℤ d) ≡ (a +ℤ c) -ℤ (b +ℤ d)
sub-add a b c d = grind int_laws

add_six :
    (a b c d e f a' b' c' d' e' f' : ℤ)
    → (a +ℤ b +ℤ c +ℤ d +ℤ e +ℤ f) +ℤ (a' +ℤ b' +ℤ c' +ℤ d' +ℤ e' +ℤ f')
      ≡ (a +ℤ a') +ℤ (b +ℤ b') +ℤ (c +ℤ c') +ℤ (d +ℤ d') +ℤ (e +ℤ e') +ℤ (f +ℤ f')
add_six a b c d e f a' b' c' d' e' f' = cc (
  add-add a b a' b',
  add-add (a +ℤ b) c (a' +ℤ b') c',
  add-add (a +ℤ b +ℤ c) d (a' +ℤ b' +ℤ c') d',
  add-add (a +ℤ b +ℤ c +ℤ d) e (a' +ℤ b' +ℤ c' +ℤ d') e',
  add-add (a +ℤ b +ℤ c +ℤ d +ℤ e) f (a' +ℤ b' +ℤ c' +ℤ d' +ℤ e') f',
)

minus_line : (x z : ℤ) → (pos 0 -ℤ x) +ℤ z ≡ z -ℤ x
minus_line x z = grind int_laws

cleared :
    (g s p b t o c : ℤ)
    → (g -ℤ pos 0)
        +ℤ (pos 0
            -ℤ (g -ℤ (s +ℤ p +ℤ b +ℤ t +ℤ o +ℤ c))
            -ℤ c
            -ℤ pos 0
            -ℤ pos 0
            -ℤ pos 0
            -ℤ t
            -ℤ b
            -ℤ p
            -ℤ s)
      ≡ o
cleared g s p b t o c = grind int_laws

no_totals : pos 0 ≡ pos 0 -ℤ (pos 0 +ℤ pos 0 +ℤ pos 0 +ℤ pos 0 +ℤ pos 0 +ℤ pos 0)
unfolding ◌-ℤ◌ ◌+ℤ◌
no_totals = refl

total-net :
    (items : List Item)
    → All IsBalanced items
    → total (λ i. i.net_pay) items
      ≡ total (λ i. i.gross_pay) items
        -ℤ (total (λ i. i.sss_ee) items
            +ℤ total (λ i. i.philhealth_ee) items
            +ℤ total (λ i. i.pagibig_ee) items
            +ℤ total (λ i. i.tax) items
            +ℤ total (λ i. i.other_deductions) items
            +ℤ total (λ i. i.cash_advance_deduction) items)
unfolding total
total-net [] balanced = no_totals
total-net (i ∷ items) (b, balanced) =
    let g = total (λ i. i.gross_pay) items in
    let s = total (λ i. i.sss_ee) items in
    let p = total (λ i. i.philhealth_ee) items in
    let h = total (λ i. i.pagibig_ee) items in
    let t = total (λ i. i.tax) items in
    let o = total (λ i. i.other_deductions) items in
    let c = total (λ i. i.cash_advance_deduction) items in
    let own =
      i.sss_ee +ℤ i.philhealth_ee +ℤ i.pagibig_ee +ℤ i.tax +ℤ i.other_deductions
      +ℤ i.cash_advance_deduction in
    cc (
      b,
      total-net items balanced,
      sub-add i.gross_pay own g (s +ℤ p +ℤ h +ℤ t +ℤ o +ℤ c),
      add_six i.sss_ee i.philhealth_ee i.pagibig_ee i.tax i.other_deductions
          i.cash_advance_deduction s p h t o c,
    )

lines-balance :
    (items : List Item)
    → payable_balance (lines items)
      ≡ (total (λ i. i.gross_pay) items -ℤ pos 0)
        +ℤ (pos 0
            -ℤ total (λ i. i.net_pay) items
            -ℤ total (λ i. i.cash_advance_deduction) items
            -ℤ pos 0
            -ℤ pos 0
            -ℤ pos 0
            -ℤ total (λ i. i.tax) items
            -ℤ total (λ i. i.pagibig_ee) items
            -ℤ total (λ i. i.philhealth_ee) items
            -ℤ total (λ i. i.sss_ee) items)
unfolding payable_balance payable_change lines
lines-balance items = simp minus_line refl

-- Where the net pay of every item is its gross pay less its deductions, and no line's amount is
-- negative, the journal lines of the run leave the total of the other deductions standing as a
-- credit on Salaries Payable.
pub payable-residue :
    (items : List Item)
    → All IsBalanced items
    → All (λ line. pos 0 ≤ℤ line.amount) (lines items)
    → payable_balance (posted_lines items) ≡ total (λ i. i.other_deductions) items
unfolding posted_lines
payable-residue items balanced nn =
    posted-balance (lines items) nn
    ∙ lines-balance items
    ∙ rw (total-net items balanced) (
        cleared (total (λ i. i.gross_pay) items) (total (λ i. i.sss_ee) items)
          (total (λ i. i.philhealth_ee) items) (total (λ i. i.pagibig_ee) items)
          (total (λ i. i.tax) items) (total (λ i. i.other_deductions) items)
          (total (λ i. i.cash_advance_deduction) items))
