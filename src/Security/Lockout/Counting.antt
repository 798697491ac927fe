-- ===== src/Security/Lockout/Counting.antt =====
-- What failures and a clearing leave: the count, and how long the lock holds.
use Prim.Native.Nat.pow
use hidden_oasis_staff_payro.Common.{
  ℕ, zero, suc, ◌+◌, ◌-◌, ◌^◌, ◌≤◌, ◌<◌, ◌≡◌, min, max, refl, subst, true, none, some, List, [],
  ◌∷◌, arith, select, not, ◌/◌, ◌%◌, ◌==◌, Bool-cases, inl, inr, if◌then◌else◌, eq_text_refl, Text,
}
use hidden_oasis_staff_payro.Security.Lockout.{
  Attempt, normalized_identifier, lock_seconds, is_attempt_of, find_attempt, lock_remaining_seconds,
  failures_of, per_second, seconds_until, failed_attempt, put_attempt, record_login_failure,
  clear_login_failures,
}

is_attempt_of_self :
    (key ip : Text) (n seconds now : ℕ)
    → is_attempt_of key ip (failed_attempt key ip n seconds now) ≡ true
unfolding is_attempt_of failed_attempt
is_attempt_of_self key ip n seconds now = ground (arith, eq_text_refl key, eq_text_refl ip)

find-put :
    (key ip : Text) (a : Attempt) (l : List Attempt)
    → a.identifier ≡ key
    → a.ip_address ≡ ip
    → is_attempt_of key ip a ≡ true
    → find_attempt key ip (put_attempt a l) ≡ some a
unfolding find_attempt put_attempt
find-put key ip a [] e f self = ground arith
find-put key ip a (b ∷ l) e f self = ground (arith, find-put key ip a l e f self)

put_found :
    (key ip : Text) (n seconds now : ℕ) (l : List Attempt)
    → find_attempt key ip (put_attempt (failed_attempt key ip n seconds now) l)
      ≡ some (failed_attempt key ip n seconds now)
unfolding failed_attempt
put_found key ip n seconds now l =
    find-put key ip (failed_attempt key ip n seconds now) l refl refl
      (is_attempt_of_self key ip n seconds now)

find-clear :
    (key ip : Text) (l : List Attempt)
    → find_attempt key ip (select (λ a. not (is_attempt_of key ip a)) l) ≡ none
unfolding find_attempt
find-clear key ip [] = refl
find-clear key ip (a ∷ l) = ground (arith, find-clear key ip l)

two_positive : (k : ℕ) → 1 ≤ 2 ^ k
two_positive zero = omega arith
two_positive (suc k) = omega (arith, two_positive k, pow.suc 2 k)

-- Below the limit, which is at least three, there is no lock; from it on a minute up to an hour.
lock_bounds :
    (limit n : ℕ)
    → (n < max 3 limit → lock_seconds limit n ≡ 0)
      × (max 3 limit ≤ n → 60 ≤ lock_seconds limit n)
      × (lock_seconds limit n ≤ 3600)
unfolding lock_seconds
lock_bounds limit n =
    let power = two_positive (min 5 (n - max 3 limit)) in
    (λ below. ground arith, λ above. ground (arith, power), ground arith)

failures-found :
    (key ip : Text) (l : List Attempt) (a : Attempt)
    → find_attempt key ip l ≡ some a
    → failures_of key ip l ≡ a.failed_count
unfolding failures_of
failures-found key ip l a h = rw (h, failures_of) refl

failures-cleared :
    (key ip : Text) (l : List Attempt) → find_attempt key ip l ≡ none → failures_of key ip l ≡ 0
unfolding failures_of
failures-cleared key ip l h = rw (h, failures_of) refl

remaining-cleared :
    (identifier ip : Text) (now : ℕ) (l : List Attempt)
    → find_attempt (normalized_identifier identifier) ip l ≡ none
    → lock_remaining_seconds identifier ip now l ≡ 0
unfolding lock_remaining_seconds
remaining-cleared identifier ip now l h = rw (h, lock_remaining_seconds) refl

-- The part of a second that the stored end of the lock loses.
abbrev pub lost_second : ℕ → ℕ
lost_second now = if now % per_second == 0 then 0 else 1

seconds_until-stored :
    (now seconds : ℕ) → seconds_until (now / per_second + seconds) now ≡ seconds - lost_second now
unfolding seconds_until
seconds_until-stored now seconds = ground arith

remaining-failed :
    (identifier ip : Text) (n seconds now : ℕ) (l : List Attempt)
    → find_attempt (normalized_identifier identifier) ip l
      ≡ some (failed_attempt (normalized_identifier identifier) ip n seconds now)
    → lock_remaining_seconds identifier ip now l ≡ seconds - lost_second now
unfolding lock_remaining_seconds failed_attempt
remaining-failed identifier ip n seconds now l h =
    rw (h, lock_remaining_seconds)
      (elim (Bool-cases (seconds == 0)) [
        | inl unlocked ↦ ground (arith, unlocked)
        | inr locked ↦ rw (locked, if◌then◌else◌) (seconds_until-stored now seconds)
      ])

-- A failure adds one to the count of its identifier and address, and returns a number of seconds: none
-- while the count is below the limit (at least three), from then on a minute up to an hour. They are
-- locked for as many seconds, less one unless the clock stands at a whole second. A clearing ends the
-- count and the lock.
pub failure-lock :
    (limit : ℕ) (identifier ip : Text) (now : ℕ) (attempts : List Attempt)
    → let (seconds, after) = record_login_failure limit identifier ip now attempts in
      let key = normalized_identifier identifier in
      let count = failures_of key ip after in
      (count ≡ failures_of key ip attempts + 1)
      × (lock_remaining_seconds identifier ip now after ≡ seconds - lost_second now)
      × (count < max 3 limit → seconds ≡ 0)
      × (max 3 limit ≤ count → 60 ≤ seconds)
      × (seconds ≤ 3600)
      × (failures_of key ip (clear_login_failures identifier ip after) ≡ 0)
      × (lock_remaining_seconds identifier ip now (clear_login_failures identifier ip after) ≡ 0)
unfolding record_login_failure clear_login_failures failed_attempt
failure-lock limit identifier ip now attempts =
    let key = normalized_identifier identifier in
    let n = failures_of key ip attempts + 1 in
    let seconds = lock_seconds limit n in
    let after = put_attempt (failed_attempt key ip n seconds now) attempts in
    let found = put_found key ip n seconds now attempts in
    let count = failures-found key ip after (failed_attempt key ip n seconds now) found in
    let (below, above, bound) = lock_bounds limit n in
    let gone = find-clear key ip after in
    let kept = select (λ a. not (is_attempt_of key ip a)) after in
    (
      count,
      remaining-failed identifier ip n seconds now after found,
      λ h. below (subst (λ c. c < max 3 limit) count h),
      λ h. above (subst (λ c. max 3 limit ≤ c) count h),
      bound,
      failures-cleared key ip kept gone,
      remaining-cleared identifier ip now kept gone,
    )
