-- ===== src/Outbox/Tests.antt =====
-- An outbox with one payroll event, delivered to Accounting (core/integration_outbox.py).
use hidden_oasis_staff_payro.Common.{
  ℕ, ◌+◌, ◌≤◌, ◌≡◌, ◌↔◌, refl, true, false, none, some, List, ◌++◌, [], ◌∷◌, All, arith, pos, codes,
  length, eq_text,
}
use hidden_oasis_staff_payro.Outbox.Envelope.{absent, centavos, Envelope, advance_repaid}
use hidden_oasis_staff_payro.Outbox.Settlement.{
  method_is_receipt, source_is_payroll, run_linked_as_payroll,
}
use hidden_oasis_staff_payro.Outbox.Canonical.{cash_in, canonical_accounting_payload}
use hidden_oasis_staff_payro.Outbox.Canonical.Effects.{repayment-cash_in}
use hidden_oasis_staff_payro.Outbox.Row.{
  Row, Outbox, completed, find_row, find_key, same_key, is_protected, is_open, update_row,
  ensure_integration_schema, normalized_row,
}
use hidden_oasis_staff_payro.Outbox.Table.{IsTable, AreDistinct}
use hidden_oasis_staff_payro.Outbox.Enqueue.{
  Event, event_key, new_row, queued, enqueue_event, upsert, id_after,
}
use hidden_oasis_staff_payro.Outbox.Enqueue.Once.{enqueue-once}
use hidden_oasis_staff_payro.Outbox.Claim.{
  claim_events, claimable_ids, is_claimable, is_due, is_listed, claimed_row, locked_rows,
}
use hidden_oasis_staff_payro.Outbox.Routing.{
  destination_config, destination_env, endpoint_for, default_endpoint,
}
use hidden_oasis_staff_payro.Outbox.Claim.Lease.{IsClaimed, claim-lease}
use hidden_oasis_staff_payro.Outbox.Deliver.{
  Reply, response, World, Report, settle, attempt_post, is_delivered, delivered_row,
  process_claimed_event,
}
use hidden_oasis_staff_payro.Outbox.Drain.{Round, drained, drain, serve, summary}
use hidden_oasis_staff_payro.Outbox.Drain.Counts.{drain-accounts}
use hidden_oasis_staff_payro.Outbox.System.{System, here, next, enqueue, claim}
use hidden_oasis_staff_payro.Outbox.System.Held.{IsSafe, Reach-IsSafe, completed_final}

-- A repayment in cash of 500.00, of a run whose own fields are empty.
abbrev envelope : Envelope
envelope = record {
  amount = absent;
  payment_date = none;
  payment_method = none;
  employee_name = some (codes "Ana");
  totals = record { net_pay = centavos (pos 370000); gross_pay = absent };
  run = record {
    id = some 7;
    net_pay = absent;
    gross_pay = absent;
    net_13th_pay = absent;
    payment_date = none;
    payment_method = none;
    revision_treatment = some (codes " Adjust_Paid ");
    revision_of_run_id = some 6;
  };
  cash_advance = record { amount = absent; release_method = none; employee_name = none };
  repayment = record {
    amount = centavos (pos 50000);
    payment_method = some (codes " Bank-Transfer ");
    method = none;
    source = some (codes "Manual");
    payroll_run_id = some 7;
    employee_name = none;
  };
}

abbrev event : Event
event = record {
  destination = codes "accounting";
  event_type = codes "cash_advance.repaid";
  external_source = codes "hidden_oasis_staff_payroll";
  external_id = codes "cash-advance-repayment:4";
  source_type = none;
  source_id = some 4;
  payload = envelope;
  max_attempts = 8;
}

abbrev no_rows : Outbox
no_rows = record { rows = []; next_id = 1 }

no_rows-IsTable : IsTable no_rows
no_rows-IsTable = record { distinct = tt; below = tt }

abbrev row : Row
row = new_row event 10 1

abbrev one_row : Outbox
one_row = record { rows = row ∷ []; next_id = 2 }

one_row-IsTable : IsTable one_row
unfolding new_row
one_row-IsTable = record { distinct = (tt, tt); below = (omega arith, tt) }

abbrev sent_row : Row
sent_row = record row { status = completed }

abbrev sent_table : Outbox
sent_table = record { rows = sent_row ∷ []; next_id = 2 }

sent_table-IsTable : IsTable sent_table
unfolding new_row
sent_table-IsTable = record { distinct = (tt, tt); below = (omega arith, tt) }

sent_found : find_key (event_key event) sent_table.rows ≡ some sent_row
unfolding find_key same_key eq_text new_row
sent_found = refl

sent_row_protected : is_protected sent_row.status ≡ true
unfolding is_protected
sent_row_protected = refl

sent_at_one : find_row 1 sent_table.rows ≡ some sent_row
unfolding find_row new_row
sent_at_one = refl

repayment-cash_in_example :
    ((canonical_accounting_payload advance_repaid envelope).effect ≡ cash_in) ↔ (
      (method_is_receipt envelope ≡ true)
      × (source_is_payroll envelope ≡ false)
      × (run_linked_as_payroll envelope ≡ false))
repayment-cash_in_example = repayment-cash_in envelope

enqueue-once_example :
    (id : ℕ) × (o1 o2 : Outbox) × (enqueue_event false false event 10 no_rows ≡ queued id o1)
    × (enqueue_event false false event 20 o1 ≡ queued id o2)
    × (length o2.rows ≡ length o1.rows)
    × IsTable o2
enqueue-once_example =
    enqueue-once no_rows event event false false false false 10 20 no_rows-IsTable refl refl refl

claim-lease_example :
    let (o', claimed) = claim_events 1 (codes "worker") 30 one_row in
    All (IsClaimed (codes "worker") 30 (ensure_integration_schema one_row).rows o'.rows) claimed
    × AreDistinct claimed
    × IsTable o'
claim-lease_example = claim-lease 1 (codes "worker") 30 one_row one_row-IsTable

abbrev conflict : Reply
conflict =
    response 409 (record { text = codes "conflict"; status = some (codes "already_applied") })

abbrev at_rest : System
at_rest = record { outbox = no_rows; in_flight = [] }

at_rest-IsSafe : IsSafe at_rest
at_rest-IsSafe = record { table = no_rows-IsTable; held = tt; apart = tt }

abbrev with_event : System
with_event = record { outbox = upsert event 10 no_rows; in_flight = [] }

event_queued : enqueue_event false false event 10 no_rows ≡ queued 1 (upsert event 10 no_rows)
unfolding enqueue_event id_after upsert find_key same_key eq_text new_row ensure_integration_schema
event_queued = refl

-- The producer's step, then the worker's.
Reach-IsSafe_example :
    let (o, rows) = claim_events 1 (codes "worker") 30 with_event.outbox in
    IsSafe (record { outbox = o; in_flight = rows ++ [] })
Reach-IsSafe_example =
    Reach-IsSafe
      (next (next here (enqueue at_rest false false event 10 1 with_event.outbox event_queued)) (
        claim with_event 1 (codes "worker") 30
          (claim_events 1 (codes "worker") 30 with_event.outbox).0
          (claim_events 1 (codes "worker") 30 with_event.outbox).1 refl))
      at_rest-IsSafe

abbrev all_sent : System
all_sent = record { outbox = sent_table; in_flight = [] }

all_sent-IsSafe : IsSafe all_sent
all_sent-IsSafe = record { table = sent_table-IsTable; held = tt; apart = tt }

completed_final_example :
    find_row 1 (claim_events 1 (codes "worker") 30 sent_table).0.rows ≡ some sent_row
completed_final_example =
    completed_final
      (next here (
        claim all_sent 1 (codes "worker") 30 (claim_events 1 (codes "worker") 30 sent_table).0
          (claim_events 1 (codes "worker") 30 sent_table).1 refl))
      all_sent-IsSafe 1 sent_row sent_at_one refl

abbrev accepting : World
accepting = record {
  getenv = λ name. codes "https://accounting";
  post = λ url body token. response 200 (record { text = codes "ok"; status = none });
}

abbrev rounds : List Round
rounds =
    record { world = accepting; claimed_at = 50; sent_at = 51; answered_at = 52 }
    ∷ record { world = accepting; claimed_at = 60; sent_at = 61; answered_at = 62 }
    ∷ []

abbrev reports : List Report
reports = record { id = 1; status = completed; http_status = some 200 } ∷ []

abbrev claimed_table : Outbox
claimed_table = (claim_events 1 (codes "worker") 50 one_row).0

abbrev delivered_table : Outbox
delivered_table = record claimed_table {
  rows =
      update_row 1 (delivered_row row 51 52 (record { text = codes "ok"; status = none }))
        claimed_table.rows;
}

abbrev drained_table : Outbox
drained_table = (claim_events 1 (codes "worker") 60 delivered_table).0

drain_done : drain (codes "worker") rounds one_row ≡ drained drained_table reports
unfolding drain serve claim_events ensure_integration_schema claimable_ids is_claimable is_due
    is_open is_listed claimed_row locked_rows process_claimed_event destination_config
    destination_env settle attempt_post endpoint_for default_endpoint eq_text is_delivered
    delivered_row new_row normalized_row
drain_done = refl

drain-accounts_example :
    ((summary reports).claimed
      ≡ (summary reports).completed_count
        + (summary reports).failed
        + (summary reports).dead_letters)
    × ((summary reports).claimed ≤ 2)
drain-accounts_example =
    drain-accounts (codes "worker") rounds one_row drained_table reports drain_done
