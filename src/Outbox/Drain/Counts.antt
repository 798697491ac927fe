-- ===== src/Outbox/Drain/Counts.antt =====
-- The counters of a run account for every event that it claimed.
use hidden_oasis_staff_payro.Common.{
  ℕ, suc, ◌+◌, ◌≤◌, ◌≡◌, List, [], ◌∷◌, length, arith, Text, ◌⊎◌, refl, some, none, Option,
}
use hidden_oasis_staff_payro.Outbox.Row.{Row, Outbox, retry, completed, dead_letter}
use hidden_oasis_staff_payro.Outbox.Claim.{claim_events}
use hidden_oasis_staff_payro.Outbox.Deliver.{
  World, Report, Processed, processed, unsupported, process_claimed_event, Reply, response, failed,
  settle, attempt_post,
}
use hidden_oasis_staff_payro.Outbox.Routing.{destination_config}
use hidden_oasis_staff_payro.Outbox.Drain.{
  Round, Drained, drained, raised, drain, add_report, Served, idle, settled, refused, settled_of,
  served_of, serve, summary, count_status,
}

-- A report's status is one of the three that the counters count.
abbrev IsCounted : Report → Type 0
IsCounted r = (r.status ≡ completed) ⊎ (r.status ≡ retry) ⊎ (r.status ≡ dead_letter)

settle-IsCounted :
    (r : Row) (now later : ℕ) (reply : Reply) (o o' : Outbox) (report : Report)
    → settle r now later reply o ≡ processed o' report
    → IsCounted report
unfolding settle
settle-IsCounted r now later (response code body) o o' report h = ground arith
settle-IsCounted r now later (failed error) o o' report h = ground arith

process-IsCounted :
    (w : World) (r : Row) (now later : ℕ) (o o' : Outbox) (report : Report)
    → process_claimed_event w r now later o ≡ processed o' report
    → IsCounted report
unfolding process_claimed_event
process-IsCounted w r now later o o' report h =
    by_config (destination_config w.getenv r.destination) refl
  where
    by_config :
        (c : Option (Text × Text))
        → destination_config w.getenv r.destination ≡ c
        → IsCounted report
    by_config none e = cc (rw (e, process_claimed_event) at h)
    by_config (some ([], token)) e = ground (arith, rw (e, process_claimed_event) at h)
    by_config (some (c ∷ s, token)) e =
        settle-IsCounted r now later (attempt_post w (c ∷ s) token r) o o' report
          (rw (e, process_claimed_event) at h)

-- Every report is counted once.
Accounted : List Report → Type 0
Accounted reports =
    length reports
    ≡ count_status completed reports + count_status retry reports + count_status dead_letter reports

Accounted-cons :
    (r : Report) (reports : List Report) → IsCounted r → Accounted reports → Accounted (r ∷ reports)
unfolding Accounted count_status
Accounted-cons r reports c a = ground arith

-- The reports of a run are accounted for, and there are no more of them than rounds.
abbrev Fine : ℕ → Drained → Type 0
Fine n d =
    (o : Outbox) (reports : List Report)
    → d ≡ drained o reports
    → Accounted reports × (length reports ≤ n)

Fine-add :
    (n : ℕ) (r : Report) (d : Drained) → IsCounted r → Fine n d → Fine (suc n) (add_report r d)
Fine-add n r (drained o rs) c f o' reports e =
    let (a, b) = f o rs refl in (ground (arith, Accounted-cons r rs c a), ground arith)
Fine-add n r (raised o) c f o' reports e = cc

settled_of-IsCounted :
    (k : Round) (row : Row) (table o : Outbox) (report : Report)
    → settled_of table (process_claimed_event k.world row k.sent_at k.answered_at table)
      ≡ settled o report
    → IsCounted report
settled_of-IsCounted k row table o report =
    by_result (process_claimed_event k.world row k.sent_at k.answered_at table)
      (λ o' r e. process-IsCounted k.world row k.sent_at k.answered_at table o' r e)
  where
    by_result :
        (p : Processed)
        → ((o' : Outbox) (r : Report) → p ≡ processed o' r → IsCounted r)
        → settled_of table p ≡ settled o report
        → IsCounted report
    by_result unsupported f h = cc
    by_result (processed o' r) f h = ground (arith, f o' r refl)

served_of-IsCounted :
    (k : Round) (c : Outbox × List Row) (o : Outbox) (report : Report)
    → served_of k c ≡ settled o report
    → IsCounted report
served_of-IsCounted k (table, []) o report h = cc
served_of-IsCounted k (table, row ∷ rows) o report h = settled_of-IsCounted k row table o report h

served-Fine :
    (worker : Text) (rounds : List Round) (s : Served)
    → ((o : Outbox) (report : Report) → s ≡ settled o report → IsCounted report)
    → ((o : Outbox) → Fine (length rounds) (drain worker rounds o))
    → Fine (suc (length rounds)) (elim s [
      | idle o' ↦ drained o' []
      | settled o' report ↦ add_report report (drain worker rounds o')
      | refused o' ↦ raised o'
    ])
unfolding Accounted count_status
served-Fine worker rounds (idle o) f rest = λ o' reports h. (ground arith, ground arith)
served-Fine worker rounds (refused o) f rest = λ o' reports h. cc
served-Fine worker rounds (settled o report) f rest =
    Fine-add (length rounds) report (drain worker rounds o) (f o report refl) (rest o)

drain-Fine :
    (worker : Text) (rounds : List Round) (o : Outbox)
    → Fine (length rounds) (drain worker rounds o)
unfolding drain Accounted count_status serve
drain-Fine worker [] o = λ o' reports e. (ground arith, ground arith)
drain-Fine worker (k ∷ rounds) o =
    served-Fine worker rounds (serve worker k o)
      (λ o' report h. served_of-IsCounted k (claim_events 1 worker k.claimed_at o) o' report h)
      (λ o1. drain-Fine worker rounds o1)

-- When a run of the loop ends without an error, the number of claimed events in its summary is the
-- sum of the completed, the failed and the dead-lettered ones, and is at most the number of rounds.
pub drain-accounts :
    (worker : Text) (rounds : List Round) (o o' : Outbox) (reports : List Report)
    → drain worker rounds o ≡ drained o' reports
    → ((summary reports).claimed
        ≡ (summary reports).completed_count
          + (summary reports).failed
          + (summary reports).dead_letters)
      × ((summary reports).claimed ≤ length rounds)
unfolding summary Accounted
drain-accounts worker rounds o o' reports h = drain-Fine worker rounds o o' reports h
