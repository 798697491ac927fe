-- ===== src/Outbox/Drain.antt =====
-- core/integration_outbox.py: `process_due_events`. Each round of the loop claims one event and
-- delivers it before the next is claimed. A round brings its clock readings and its world, so that
-- answers and settings may change from round to round; there are max(1, limit) of them.
pub mod Counts
use hidden_oasis_staff_payro.Common.{
  ℕ, zero, suc, ◌+◌, List, [], ◌∷◌, Text, length, select, Bool, true, false, if◌then◌else◌,
}
use hidden_oasis_staff_payro.Outbox.Row.{Row, Outbox, Status, retry, completed, dead_letter}
use hidden_oasis_staff_payro.Outbox.Claim.{claim_events}
use hidden_oasis_staff_payro.Outbox.Deliver.{
  World, Report, Processed, processed, unsupported, process_claimed_event,
}

pub record Round : Type 0 where
  pub world : World
  pub claimed_at : ℕ
  pub sent_at : ℕ
  pub answered_at : ℕ

pub data Drained : Type 0 where
  drained : Outbox → List Report → Drained
  -- the ValueError of a row whose destination is not known; the row stays in processing
  raised : Outbox → Drained

abbrev pub add_report : Report → Drained → Drained
add_report report (drained o reports) = drained o (report ∷ reports)
add_report report (raised o) = raised o

-- What a round did: nothing was due, one event was settled, or its row was refused.
pub data Served : Type 0 where
  idle : Outbox → Served
  settled : Outbox → Report → Served
  refused : Outbox → Served

abbrev pub settled_of : Outbox → Processed → Served
settled_of table unsupported = refused table
settled_of table (processed o report) = settled o report

abbrev pub served_of : Round → Outbox × List Row → Served
served_of k (table, []) = idle table
served_of k (table, row ∷ _) =
    settled_of table (process_claimed_event k.world row k.sent_at k.answered_at table)

-- The body of the loop, up to its `break`.
unfoldable pub serve : Text → Round → Outbox → Served
serve worker k o = served_of k (claim_events 1 worker k.claimed_at o)

unfoldable pub drain : Text → List Round → Outbox → Drained
drain worker [] o = drained o []
drain worker (k ∷ rounds) o = elim (serve worker k o) [
  | idle o' ↦ drained o' []
  | settled o' report ↦ add_report report (drain worker rounds o')
  | refused o' ↦ raised o'
]

abbrev is_status : Status → Report → Bool
is_status completed r = elim r.status [ completed ↦ true | _ ↦ false ]
is_status retry r = elim r.status [ retry ↦ true | _ ↦ false ]
is_status dead_letter r = elim r.status [ dead_letter ↦ true | _ ↦ false ]
is_status _ r = false

unfoldable pub count_status : Status → List Report → ℕ
count_status s reports = length (select (is_status s) reports)

pub record Summary : Type 0 where
  pub claimed : ℕ
  pub completed_count : ℕ
  pub failed : ℕ
  pub dead_letters : ℕ

unfoldable pub summary : List Report → Summary
unfolding count_status
summary reports = record {
  claimed = length reports;
  completed_count = count_status completed reports;
  failed = count_status retry reports;
  dead_letters = count_status dead_letter reports;
}
