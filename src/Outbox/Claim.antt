-- ===== src/Outbox/Claim.antt =====
-- core/integration_outbox.py: `claim_events`. Selecting the rows and marking them is one transaction
-- (BEGIN IMMEDIATE), so it is one step here.
pub mod Lease
use hidden_oasis_staff_payro.Common.{
  ℕ, zero, suc, max, Bool, true, false, ◌&&◌, ◌||◌, Option, none, some, List, [], ◌∷◌, map, leb,
  ◌==◌, if◌then◌else◌, Text, eq_text,
}
use hidden_oasis_staff_payro.Outbox.Row.{
  Row, Outbox, Stamp, naive, stamp_key, processing, is_open, ensure_integration_schema,
}

-- `next_attempt_at IS NULL OR next_attempt_at<=?`
unfoldable pub is_due : ℕ → Option Stamp → Bool
is_due now none = true
is_due now (some t) = leb (stamp_key t) (stamp_key (naive now))

unfoldable pub is_claimable : ℕ → Row → Bool
unfolding is_open is_due
is_claimable now r = is_open r.status && is_due now r.next_attempt_at

-- The ids of the first rows that can be claimed, in the order of the ids.
unfoldable pub claimable_ids : ℕ → ℕ → List Row → List ℕ
claimable_ids zero now rows = []
claimable_ids (suc n) now [] = []
claimable_ids (suc n) now (r ∷ rows) =
    let taken = r.id ∷ claimable_ids n now rows in
    let passed = claimable_ids (suc n) now rows in if is_claimable now r then taken else passed

unfoldable pub is_listed : ℕ → List ℕ → Bool
is_listed i [] = false
is_listed i (j ∷ ids) = (i == j) || is_listed i ids

-- The UPDATE of the loop over the selected rows.
unfoldable pub claimed_row : Text → ℕ → List ℕ → Row → Row
unfolding is_open
claimed_row worker now ids r =
    if is_listed r.id ids && is_open r.status
    then record r {
      status = processing;
      locked_at = some (naive now);
      locked_by = some worker;
      updated_at = naive now;
    }
    else r

abbrev is_locked_by : Text → Option Text → Bool
is_locked_by worker none = false
is_locked_by worker (some w) = eq_text w worker

-- The final SELECT.
unfoldable pub locked_rows : Text → List ℕ → List Row → List Row
locked_rows worker ids [] = []
locked_rows worker ids (r ∷ rows) =
    let rest = locked_rows worker ids rows in
    if is_listed r.id ids && is_locked_by worker r.locked_by then r ∷ rest else rest

unfoldable pub claim_events : ℕ → Text → ℕ → Outbox → Outbox × List Row
claim_events limit worker now o =
    let ready = ensure_integration_schema o in
    let ids = claimable_ids (max 1 limit) now ready.rows in
    let rows = map (claimed_row worker now ids) ready.rows in
    (record ready { rows = rows }, locked_rows worker ids rows)
