-- ===== src/Access/Tests.antt =====
-- Runs of the throttles and of the limiter, and their properties at them.
use model_bridge.Base.{◌≤◌, ◌≡◌, refl, [], ◌∷◌, none, some, true, arith, inr}
use model_bridge.Base.Int.{pos}
use model_bridge.Base.Results.{ok, err}
use model_bridge.Access.Throttle.{Row, Policy, valid_policy, allow_row, allowed, allowed-le_max}
use model_bridge.Access.Logins.{
  LoginPolicy, is_throttled, record_failure, record_failures, record_failure-throttles,
}
use model_bridge.Access.Limits.{active_count, Within, acquire_token-Within, release-acquire}
use model_bridge.Access.Limiter.{
  RateLimitPolicy, Usage, LimiterError, recent, consume, enter, at_least_one, count_request,
  count_active, acquire_token, release_token,
}

abbrev policy : Policy
policy = record { max_requests = 2; window = 60; lock_for = 300 }

-- The third request of a minute is refused.
allowed_run : allowed policy (100 ∷ 101 ∷ 102 ∷ []) none ≡ 2
unfolding allowed allow_row
allowed_run = refl

valid_run : valid_policy policy ≡ true
unfolding valid_policy
valid_run = refl

allowed-le_max_example : allowed policy (100 ∷ 101 ∷ 160 ∷ []) none ≤ 2
allowed-le_max_example =
    allowed-le_max policy 100 (101 ∷ 160 ∷ []) valid_run (omega arith, (omega arith, tt))

abbrev full : Row
full = record { failure_count = 2; first_failed_at = 100; locked_until = none }

abbrev login_policy : LoginPolicy
login_policy = record { max_failures = 3; failure_window = 900; lock_duration = 900 }

record_failure-throttles_example :
    let row = record_failures login_policy (20 ∷ []) (record_failure login_policy 10 none) in
    is_throttled 929 (some (record_failure login_policy 30 (some row))) ≡ true
record_failure-throttles_example =
    record_failure-throttles login_policy 10 30 929 (20 ∷ []) (omega arith, tt) (omega arith)
      (omega arith) (omega arith)

abbrev limits : RateLimitPolicy
limits = record { rpm = 2; tpm = 100; concurrency = 1 }

abbrev idle : Usage
idle = record {
  windows = (3, record { request_count = 2; token_count = 90 }) ∷ [];
  active = some 0;
}

abbrev busy : Usage
busy = record {
  windows =
      (3, record { request_count = 2; token_count = 90 })
      ∷ (4, record { request_count = 1; token_count = 250 })
      ∷ [];
  active = some 1;
}

-- The first request of a minute passes with more tokens than the limit.
acquire_run : acquire_token limits 4 (pos 250) idle ≡ ok busy
unfolding acquire_token count_request count_active consume enter recent at_least_one
acquire_run = refl

refused_run : acquire_token limits 4 (pos 1) busy ≡ err LimiterError.token_rate_limited
unfolding acquire_token count_request count_active consume enter recent at_least_one
refused_run = refl

idle-Within : Within limits idle
idle-Within = record {
  windows = (record { requests = inr (omega arith); tokens = inr (inr (omega arith)) }, tt);
  active = inr (omega arith);
}

acquire_token-Within_example : Within limits busy
acquire_token-Within_example = acquire_token-Within limits 4 (pos 250) idle idle-Within acquire_run

release-acquire_example : active_count (release_token limits busy) ≡ active_count idle
release-acquire_example = release-acquire limits 4 (pos 250) idle acquire_run
