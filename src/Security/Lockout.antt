-- ===== src/Security/Lockout.antt =====
-- core/login_security.py: the lock of an identifier and an address after failed logins. The clock
-- (`now`) is in microseconds of UTC, the instants that are stored are whole seconds (utc_storage_iso and
-- now_iso drop the rest); the setting of the limit comes with each call.
pub mod Counting
use hidden_oasis_staff_payro.Common.{
  ℕ, ◌+◌, ◌-◌, ◌*◌, ◌/◌, ◌^◌, min, max, Bool, not, ◌&&◌, Option, none, some, List, [], ◌∷◌, ltb,
  ◌==◌, if◌then◌else◌, select, Text, eq_text, drop_blank, join_words, normalized, split_words,
}

pub record Attempt : Type 0 where
  pub identifier : Text
  pub ip_address : Text
  pub failed_count : ℕ
  pub last_failed_at : ℕ
  pub locked_until : Option ℕ

-- `" ".join(value.strip().lower().split())`
unfoldable pub normalized_identifier : Text → Text
normalized_identifier value = join_words b' ' (drop_blank (split_words (normalized value)))

-- `limit` is the setting STAFF_PAYROLL_LOGIN_FAILURE_LIMIT.
unfoldable pub lock_seconds : ℕ → ℕ → ℕ
lock_seconds limit failed_count =
    if ltb failed_count (max 3 limit)
    then 0
    else min 3600 (60 * 2 ^ min 5 (failed_count - max 3 limit))

unfoldable pub is_attempt_of : Text → Text → Attempt → Bool
is_attempt_of key ip a = eq_text a.identifier key && eq_text a.ip_address ip

unfoldable pub find_attempt : Text → Text → List Attempt → Option Attempt
find_attempt key ip [] = none
find_attempt key ip (a ∷ attempts) =
    let rest = find_attempt key ip attempts in if is_attempt_of key ip a then some a else rest

-- A second of the clock.
abbrev pub per_second : ℕ
per_second = 1000000

-- `int((locked_until - utc_now()).total_seconds())`, not below 0.
unfoldable pub seconds_until : ℕ → ℕ → ℕ
seconds_until stored now = (stored * per_second - now) / per_second

unfoldable pub lock_remaining_seconds : Text → Text → ℕ → List Attempt → ℕ
unfolding seconds_until
lock_remaining_seconds identifier ip now attempts =
    elim (find_attempt (normalized_identifier identifier) ip attempts) [
      | none ↦ 0
      | some a ↦ elim a.locked_until [ none ↦ 0 | some t ↦ seconds_until t now ]
    ]

unfoldable pub failures_of : Text → Text → List Attempt → ℕ
failures_of key ip attempts = elim (find_attempt key ip attempts) [
  | none ↦ 0
  | some a ↦ a.failed_count
]

unfoldable pub failed_attempt : Text → Text → ℕ → ℕ → ℕ → Attempt
failed_attempt key ip count seconds now = record {
  identifier = key;
  ip_address = ip;
  failed_count = count;
  last_failed_at = now / per_second;
  locked_until = if seconds == 0 then none else some (now / per_second + seconds);
}

-- INSERT, or UPDATE of the row with the key.
unfoldable pub put_attempt : Attempt → List Attempt → List Attempt
put_attempt a [] = a ∷ []
put_attempt a (b ∷ attempts) =
    let rest = put_attempt a attempts in
    if is_attempt_of a.identifier a.ip_address b then a ∷ attempts else b ∷ rest

unfoldable pub record_login_failure : ℕ → Text → Text → ℕ → List Attempt → ℕ × List Attempt
record_login_failure limit identifier ip now attempts =
    let key = normalized_identifier identifier in
    let count = failures_of key ip attempts + 1 in
    let seconds = lock_seconds limit count in
    (seconds, put_attempt (failed_attempt key ip count seconds now) attempts)

unfoldable pub clear_login_failures : Text → Text → List Attempt → List Attempt
clear_login_failures identifier ip attempts =
    select (λ a. not (is_attempt_of (normalized_identifier identifier) ip a)) attempts
