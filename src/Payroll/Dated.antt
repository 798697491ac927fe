-- ===== src/Payroll/Dated.antt =====
-- core/dated_earnings.py: `DatedEarningsLedger`. The amounts that are added are not rounded: they are
-- parts of a centavo, `unit` of them to the centavo; the months that result are in whole centavos. A
-- dict is the list of its entries in the order in which they were made.
pub mod Totals
pub mod Reconciled
mod Tests
use mathlib.Core.Option
use hidden_oasis_staff_payro.Common.{
  ℕ, ◌+◌, ◌*◌, ◌==◌, Bool, not, ◌&&◌, Option, none, some, List, [], ◌∷◌, map, ltb, length,
  if◌then◌else◌, ℤ, pos, pos_part, neg_part, ◌+ℤ◌, ◌-ℤ◌,
}
use hidden_oasis_staff_payro.Payroll.Money.{magnitude, money}
use hidden_oasis_staff_payro.Calendar.Date.{Date, leb_date, min_date, first_of_month}
use hidden_oasis_staff_payro.Calendar.Segments.{
  Segment, same_date, Split, ok, err, stuck, calendar_month_segments,
}

pub record DatedAmount : Type 0 where
  pub key : Date
  pub amount : ℤ

pub record DatedEarningsLedger : Type 0 where
  pub period_start : Date
  pub period_end : Date
  pub amounts : List DatedAmount

pub data DatedError : Type 0 where
  end_before_start outside_cutoff crosses_months unreconciled no_earning_date : DatedError
  undated_component key_error : DatedError
  -- the model's loop over months ran out of fuel
  out_of_fuel : DatedError

pub data Checked (A : Type 0) : Type 0 where
  refused : DatedError → Checked A
  checked : A → Checked A

unfoldable pub sum_dated : List DatedAmount → ℤ
sum_dated [] = pos 0
sum_dated (d ∷ amounts) = d.amount +ℤ sum_dated amounts

-- `d[key] = d.get(key, 0) + value`
unfoldable pub add_at : Date → ℤ → List DatedAmount → List DatedAmount
unfolding same_date
add_at day value [] = record { key = day; amount = value } ∷ []
add_at day value (d ∷ amounts) =
    let rest = add_at day value amounts in
    if same_date d.key day then record d { amount = d.amount +ℤ value } ∷ amounts else d ∷ rest

-- `d[key] += value`, `none` for the KeyError.
unfoldable pub add_known : Date → ℤ → List DatedAmount → Option (List DatedAmount)
unfolding same_date
add_known day value [] = none
add_known day value (d ∷ amounts) =
    let rest = Option.map (λ r. d ∷ r) (add_known day value amounts) in
    if same_date d.key day then some (record d { amount = d.amount +ℤ value } ∷ amounts) else rest

unfoldable pub for_cutoff : Date → Date → Checked DatedEarningsLedger
unfolding leb_date
for_cutoff start end =
    if not (leb_date start end)
    then refused end_before_start
    else checked (record { period_start = start; period_end = end; amounts = [] })

-- `abs(value) < 0.000001`, in pesos
abbrev pub is_negligible : ℕ → ℤ → Bool
is_negligible unit amount = ltb (magnitude amount * 10000) unit

unfoldable pub add : ℕ → Date → ℤ → DatedEarningsLedger → Checked DatedEarningsLedger
unfolding leb_date add_at
add unit earned amount l =
    if not (leb_date l.period_start earned && leb_date earned l.period_end)
    then refused outside_cutoff
    else if is_negligible unit amount
    then checked l
    else checked (record l { amounts = add_at earned amount l.amounts })

abbrev pub max_date : Date → Date → Date
max_date a b = if leb_date a b then b else a

unfoldable pub add_single_month_span :
    ℕ → Date → Date → ℤ → DatedEarningsLedger → Checked DatedEarningsLedger
unfolding add min_date leb_date
add_single_month_span unit start end amount l =
    let span_start = max_date start l.period_start in
    let span_end = min_date end l.period_end in
    if not (leb_date span_start span_end)
    then checked l
    else if not ((span_start.year == span_end.year) && (span_start.month == span_end.month))
    then refused crosses_months
    else add unit span_start amount l

-- The loop over the dated amounts.
unfoldable pub add_months : List DatedAmount → List DatedAmount → Option (List DatedAmount)
unfolding add_known
add_months [] totals = some totals
add_months (d ∷ amounts) totals = elim (add_known (first_of_month d.key) d.amount totals) [
  | none ↦ none
  | some next ↦ add_months amounts next
]

abbrev pub empty_month : Segment → DatedAmount
empty_month s = record { key = s.month_start; amount = pos 0 }

abbrev pub or_key_error : Option (List DatedAmount) → Checked (List DatedAmount)
or_key_error none = refused key_error
or_key_error (some totals) = checked totals

abbrev pub by_segments : List DatedAmount → Split → Checked (List DatedAmount)
by_segments amounts (ok segments) = or_key_error (add_months amounts (map empty_month segments))
by_segments amounts (err _) = refused end_before_start
by_segments amounts stuck = refused out_of_fuel

abbrev pub rounded_month : ℕ → DatedAmount → DatedAmount
rounded_month unit d = record d { amount = money unit d.amount }

abbrev pub rounded_months : ℕ → Checked (List DatedAmount) → Checked (List DatedAmount)
rounded_months unit (refused e) = refused e
rounded_months unit (checked totals) = checked (map (rounded_month unit) totals)

unfoldable pub gross_by_month : ℕ → DatedEarningsLedger → Checked (List DatedAmount)
unfolding money
gross_by_month unit l =
    rounded_months unit
      (by_segments l.amounts (calendar_month_segments l.period_start l.period_end))

-- `max(self._amounts)`
unfoldable pub last_date : Date → List DatedAmount → Date
last_date day [] = day
last_date day (d ∷ amounts) = last_date (max_date day d.key) amounts

-- The residual goes to the month of the last date.
unfoldable pub absorb : ℤ → List DatedAmount → List DatedAmount → Checked (List DatedAmount)
unfolding last_date add_known
absorb delta [] totals = refused no_earning_date
absorb delta (d ∷ amounts) totals =
    or_key_error (add_known (first_of_month (last_date d.key amounts)) delta totals)

-- From here on all amounts but those of the ledger are whole centavos, which `money` leaves.
unfoldable pub reconcile_totals :
    ℤ → List DatedAmount → List DatedAmount → Checked (List DatedAmount)
unfolding sum_dated absorb
reconcile_totals target amounts totals =
    let delta = target -ℤ sum_dated totals in
    if ltb 5 (magnitude delta)
    then refused unreconciled
    else if ltb 0 (magnitude delta)
    then absorb delta amounts totals
    else checked totals

unfoldable pub reconcile : ℕ → ℤ → DatedEarningsLedger → Checked (List DatedAmount)
unfolding gross_by_month reconcile_totals
reconcile unit gross_pay l = elim (gross_by_month unit l) [
  | refused e ↦ refused e
  | checked totals ↦ reconcile_totals (money unit gross_pay) l.amounts totals
]
