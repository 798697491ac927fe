-- ===== src/Outbox/Deliver/Settled.antt =====
-- A settlement changes one row, and keeps its id and its key.
use hidden_oasis_staff_payro.Common.{
  ℕ, ◌≡◌, ◌≢◌, refl, inl, inr, Bool, true, none, some, List, [], ◌∷◌, map, arith, Option,
  Bool-cases, Text,
}
use hidden_oasis_staff_payro.Outbox.Row.{Row, Outbox, find_row, where_id}
use hidden_oasis_staff_payro.Outbox.Table.{KeepsKeys, IsTable, IsTable-map, where_id-KeepsKeys}
use hidden_oasis_staff_payro.Outbox.Routing.{destination_config}
use hidden_oasis_staff_payro.Outbox.Deliver.{
  Body, World, Report, Reply, response, failed, processed, is_delivered, is_retryable,
  unconfigured_row, delivered_row, failed_row, settle, attempt_post, process_claimed_event,
}

-- A settlement is an update of the one row by a function that keeps ids and keys.
pub record IsSettled (i : ℕ) (o o' : Outbox) : Type 0 where
  pub change : Row → Row
  pub keeps : KeepsKeys change
  pub result : o' ≡ record o { rows = map (where_id i change) o.rows }

module _ (r : Row) (now later : ℕ) where
  pub unconfigured-KeepsKeys : KeepsKeys (unconfigured_row r now later)
  unfolding unconfigured_row
  unconfigured-KeepsKeys = record { id_kept = λ s. refl; key_kept = λ s. refl }

  pub delivered-KeepsKeys : (body : Body) → KeepsKeys (delivered_row r now later body)
  unfolding delivered_row
  delivered-KeepsKeys body = record { id_kept = λ s. refl; key_kept = λ s. refl }

  pub failed-KeepsKeys : (b : Bool) (error : Text) → KeepsKeys (failed_row r now later b error)
  unfolding failed_row
  failed-KeepsKeys b error = record { id_kept = λ s. refl; key_kept = λ s. refl }

  settle-IsSettled :
      (reply : Reply) (o o' : Outbox) (report : Report)
      → settle r now later reply o ≡ processed o' report
      → IsSettled r.id o o'
  unfolding settle
  settle-IsSettled (response code body) o o' report h = elim (Bool-cases (is_delivered code body)) [
    | inl e ↦ record {
      change = delivered_row r now later body;
      keeps = delivered-KeepsKeys body;
      result = cc (rw e at h);
    }
    | inr e ↦ record {
      change = failed_row r now later (is_retryable code) body.text;
      keeps = failed-KeepsKeys (is_retryable code) body.text;
      result = cc (rw e at h);
    }
  ]
  settle-IsSettled (failed error) o o' report h = record {
    change = failed_row r now later true error;
    keeps = failed-KeepsKeys true error;
    result = cc;
  }

pub process-IsSettled :
    (w : World) (r : Row) (now later : ℕ) (o o' : Outbox) (report : Report)
    → process_claimed_event w r now later o ≡ processed o' report
    → IsSettled r.id o o'
unfolding process_claimed_event
process-IsSettled w r now later o o' report h =
    by_config (destination_config w.getenv r.destination) refl
  where
    by_config :
        (c : Option (Text × Text))
        → destination_config w.getenv r.destination ≡ c
        → IsSettled r.id o o'
    by_config none e = cc (rw (e, process_claimed_event) at h)
    by_config (some ([], token)) e = record {
      change = unconfigured_row r now later;
      keeps = unconfigured-KeepsKeys r now later;
      result = cc (rw (e, process_claimed_event) at h);
    }
    by_config (some (c ∷ s, token)) e =
        settle-IsSettled r now later (attempt_post w (c ∷ s) token r) o o' report
          (rw (e, process_claimed_event) at h)

find_row-update_ne :
    (i j : ℕ) (f : Row → Row) (rows : List Row)
    → KeepsKeys f
    → j ≢ i
    → find_row j (map (where_id i f) rows) ≡ find_row j rows
unfolding find_row
find_row-update_ne i j f [] k ne = refl
find_row-update_ne i j f (r ∷ rows) k ne =
    ground (arith, k.id_kept r, find_row-update_ne i j f rows k ne)

module _ {i : ℕ} {o o' : Outbox} (s : IsSettled i o o') where
  pub settled-IsTable : IsTable o → IsTable o'
  settled-IsTable t = rw s.result (IsTable-map (where_id-KeepsKeys i s.change s.keeps) t)

  pub settled_others : (j : ℕ) → j ≢ i → find_row j o'.rows ≡ find_row j o.rows
  settled_others j ne = rw s.result (find_row-update_ne i j s.change o.rows s.keeps ne)
