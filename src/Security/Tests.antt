-- ===== src/Security/Tests.antt =====
-- Failed logins of one identifier (core/login_security.py).
use hidden_oasis_staff_payro.Common.{
  ◌+◌, ◌-◌, ◌≤◌, ◌<◌, ◌≡◌, max, refl, [], ◌∷◌, none, List, codes, normalized, strip, lstrip, rstrip,
  lower, lower_code, is_space, split_words, join_words,
}
use hidden_oasis_staff_payro.Security.Lockout.{
  Attempt, normalized_identifier, lock_seconds, lock_remaining_seconds, failures_of,
  record_login_failure, clear_login_failures,
}
use hidden_oasis_staff_payro.Security.Lockout.Counting.{lost_second, failure-lock}

abbrev failures : List Attempt
failures =
    record {
      identifier = codes "ana cruz";
      ip_address = codes "10.0.0.1";
      failed_count = 6;
      last_failed_at = 90;
      locked_until = none;
    }
    ∷ []

name_read : normalized_identifier (codes " Ana  CRUZ ") ≡ codes "ana cruz"
unfolding normalized_identifier normalized strip lstrip rstrip lower lower_code is_space split_words
    join_words
name_read = refl

-- The seventh failure locks for four minutes.
seventh : lock_seconds 5 7 ≡ 240
unfolding lock_seconds
seventh = refl

failure-lock_example :
    let (seconds, after) =
      record_login_failure 5 (codes " Ana  CRUZ ") (codes "10.0.0.1") 100500000 failures in
    let key = normalized_identifier (codes " Ana  CRUZ ") in
    let count = failures_of key (codes "10.0.0.1") after in
    (count ≡ failures_of key (codes "10.0.0.1") failures + 1)
    × (lock_remaining_seconds (codes " Ana  CRUZ ") (codes "10.0.0.1") 100500000 after
        ≡ seconds - lost_second 100500000)
    × (count < max 3 5 → seconds ≡ 0)
    × (max 3 5 ≤ count → 60 ≤ seconds)
    × (seconds ≤ 3600)
    × (failures_of key
          (codes "10.0.0.1")
          (clear_login_failures (codes " Ana  CRUZ ") (codes "10.0.0.1") after)
        ≡ 0)
    × (lock_remaining_seconds
          (codes " Ana  CRUZ ")
          (codes "10.0.0.1")
          100500000
          (clear_login_failures (codes " Ana  CRUZ ") (codes "10.0.0.1") after)
        ≡ 0)
failure-lock_example = failure-lock 5 (codes " Ana  CRUZ ") (codes "10.0.0.1") 100500000 failures
