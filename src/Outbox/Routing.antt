-- ===== src/Outbox/Routing.antt =====
-- core/integration_outbox.py: the destinations, their endpoints and their settings.
use hidden_oasis_staff_payro.Common.{
  ℕ, Bool, true, false, not, ◌&&◌, ◌||◌, Option, none, some, [], ◌∷◌, ◌++◌, ◌==◌, if◌then◌else◌,
  Text, codes, eq_text, strip,
}
use hidden_oasis_staff_payro.Outbox.Envelope.{EventType, other_event, event_type}

-- DESTINATION_ENV: the variables for the URL and the token.
unfoldable pub destination_env : Text → Option (Text × Text)
destination_env d =
    if eq_text d (codes "accounting")
    then some
        (codes "STAFF_PAYROLL_ACCOUNTING_SYNC_URL", codes "STAFF_PAYROLL_ACCOUNTING_SYNC_TOKEN")
    else if eq_text d (codes "operations")
    then some
        (codes "STAFF_PAYROLL_OPERATIONS_SYNC_URL", codes "STAFF_PAYROLL_OPERATIONS_SYNC_TOKEN")
    else if eq_text d (codes "pos")
    then some (codes "STAFF_PAYROLL_POS_SYNC_URL", codes "STAFF_PAYROLL_POS_SYNC_TOKEN")
    else if eq_text d (codes "inventory")
    then some (codes "STAFF_PAYROLL_INVENTORY_SYNC_URL", codes "STAFF_PAYROLL_INVENTORY_SYNC_TOKEN")
    else none

-- `os.getenv(name, "")` is a parameter; `none` stands for the ValueError.
unfoldable pub destination_config : (Text → Text) → Text → Option (Text × Text)
unfolding strip
destination_config getenv d = elim (destination_env d) [
  | none ↦ none
  | some (url, token) ↦ some (strip (getenv url), strip (getenv token))
]

abbrev employee_sync : Text
employee_sync = codes "employee.sync"

-- DEFAULT_ENDPOINTS
unfoldable pub default_endpoint : Text → Option Text
default_endpoint d =
    if eq_text d (codes "operations")
    then some (codes "/api/integrations/staff/events")
    else if eq_text d (codes "pos")
    then some (codes "/api/integrations/staff/employees")
    else if eq_text d (codes "inventory")
    then some (codes "/api/v1/integrations/staff/employees")
    else none

abbrev is_financial : EventType → Bool
is_financial other_event = false
is_financial _ = true

abbrev employees_only : Text → Bool
employees_only d = eq_text d (codes "pos") || eq_text d (codes "inventory")

-- `none` stands for the ValueError.
unfoldable pub endpoint_for : Text → Text → Option Text
unfolding default_endpoint event_type
endpoint_for d event =
    if eq_text d (codes "accounting")
    then (if eq_text event employee_sync
        then some (codes "/api/integrations/payroll/employees")
        else if is_financial (event_type event)
        then some (codes "/api/integration-review/service-intake")
        else none)
    else elim (default_endpoint d) [
      | none ↦ none
      | some endpoint ↦
          if employees_only d && not (eq_text event employee_sync) then none else some endpoint
    ]

-- `text.rstrip("/")`
abbrev keep_before : ℕ → Text → Text
keep_before c [] = if c == b'/' then [] else c ∷ []
keep_before c (d ∷ s) = c ∷ d ∷ s

rstrip_slash : Text → Text
rstrip_slash [] = []
rstrip_slash (c ∷ s) = keep_before c (rstrip_slash s)

lstrip_slash : Text → Text
lstrip_slash [] = []
lstrip_slash (c ∷ s) = let rest = lstrip_slash s in if c == b'/' then rest else c ∷ s

unfoldable pub join_url : Text → Text → Text
unfolding rstrip_slash lstrip_slash
join_url base endpoint = rstrip_slash base ++ b'/' ∷ lstrip_slash endpoint
