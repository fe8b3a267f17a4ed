-- ===== src/Access/Logins.antt =====
-- The throttle of failed logins in internal/auth/login.go: `recordFailure`, `isThrottled` and
-- `clearThrottle`.
use model_bridge.Base.{
  ℕ, ◌+◌, ◌≤◌, ◌<◌, ◌≡◌, refl, List, [], ◌∷◌, Option, none, some, Bool, true, false, leb, ltb,
  if◌then◌else◌, All, length, arith,
}
use model_bridge.Access.Throttle.{Row, locked_at}

pub record LoginPolicy : Type 0 where
  pub max_failures : ℕ
  pub failure_window : ℕ
  pub lock_duration : ℕ

-- `isThrottled`
unfoldable pub is_throttled : ℕ → Option Row → Bool
is_throttled now none = false
is_throttled now (some row) = locked_at now row.locked_until

-- `recordFailure`: the insert, or the update on a conflict.
unfoldable pub record_failure : LoginPolicy → ℕ → Option Row → Row
record_failure p now none = record { failure_count = 1; first_failed_at = now; locked_until = none }
record_failure p now (some row) =
    if ltb (row.first_failed_at + p.failure_window) now
    then record { failure_count = 1; first_failed_at = now; locked_until = none }
    else record {
      failure_count = row.failure_count + 1;
      first_failed_at = row.first_failed_at;
      locked_until =
          if leb p.max_failures (row.failure_count + 1)
          then some (now + p.lock_duration)
          else row.locked_until;
    }

-- `clearThrottle`, after a login that succeeded.
unfoldable pub clear_throttle : Option Row → Option Row
clear_throttle row = none

-- Failures one after the other.
unfoldable pub record_failures : LoginPolicy → List ℕ → Row → Row
record_failures p [] row = row
record_failures p (now ∷ later) row = record_failures p later (record_failure p now (some row))

module _ (p : LoginPolicy) where
  in_window :
      (now : ℕ) (row : Row)
      → now ≤ row.first_failed_at + p.failure_window
      → (record_failure p now (some row)).failure_count ≡ row.failure_count + 1
  unfolding record_failure
  in_window now row h = ground (arith, h)

  same_window :
      (now : ℕ) (row : Row)
      → now ≤ row.first_failed_at + p.failure_window
      → (record_failure p now (some row)).first_failed_at ≡ row.first_failed_at
  unfolding record_failure
  same_window now row h = ground (arith, h)

  record_failures-row :
      (times : List ℕ) (row : Row)
      → All (λ (t : ℕ). t ≤ row.first_failed_at + p.failure_window) times
      → ((record_failures p times row).failure_count ≡ row.failure_count + length times)
        × ((record_failures p times row).first_failed_at ≡ row.first_failed_at)
  unfolding record_failures
  record_failures-row [] row h = (omega arith, refl)
  record_failures-row (now ∷ later) row h =
      let same = same_window now row h.0 in
      let (count, first) =
        record_failures-row later (record_failure p now (some row)) (rw same h.1) in
      (omega (arith, count, in_window now row h.0), rw (first, same) refl)

throttles :
    (p : LoginPolicy) (last now : ℕ) (row : Row)
    → last ≤ row.first_failed_at + p.failure_window
    → p.max_failures ≤ row.failure_count + 1
    → now < last + p.lock_duration
    → is_throttled now (some (record_failure p last (some row))) ≡ true
unfolding is_throttled record_failure
throttles p last now row within enough before = ground (arith, within, enough, before)

-- Failures of one subject within the window that its first one opens lock the login with the last
-- of them, once that first one and those after it are as many as the policy allows, until the
-- lock's duration is over.
pub record_failure-throttles :
    (p : LoginPolicy) (first last now : ℕ) (times : List ℕ)
    → All (λ (t : ℕ). t ≤ first + p.failure_window) times
    → last ≤ first + p.failure_window
    → p.max_failures ≤ length times + 2
    → now < last + p.lock_duration
    → let row = record_failures p times (record_failure p first none) in
      is_throttled now (some (record_failure p last (some row))) ≡ true
unfolding is_throttled record_failure
record_failure-throttles p first last now times within at_last enough before =
    let opened : Row = record { failure_count = 1; first_failed_at = first; locked_until = none } in
    let (count, same) = record_failures-row p times opened within in
    throttles p last now (record_failures p times opened) (omega (arith, same, at_last))
      (omega (arith, count, enough)) before
