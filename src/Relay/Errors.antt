-- ===== src/Relay/Errors.antt =====
-- The errors of internal/relay/types.go, and what the relay makes of them.
use model_bridge.Base.{ℕ, Bool, true, false, ◌&&◌, ◌||◌, leb, ◌==◌, if◌then◌else◌}
use model_bridge.Ledger.State.{BillingError}

-- The errors that the relay tells apart. `upstream` is an `UpstreamError` with its status code, zero
-- where the provider gave none, and whether it wraps `ErrUpstream`, as it does where it wraps no
-- other error. The errors that are the caller's fault are never retried.
pub data RelayError : Type 0 where
  unavailable invalid_request unsupported_feature streaming_unsupported : RelayError
  model_not_allowed model_not_found provider_unsupported credential_unavailable : RelayError
  upstream_failed group_unavailable group_rate_limited usage_unavailable : RelayError
  -- `billing.ErrUnavailable`
  billing_unavailable : RelayError
  upstream : ℕ → Bool → RelayError
  billing : BillingError → RelayError
  -- `context.DeadlineExceeded` and `context.Canceled`
  deadline_exceeded canceled : RelayError
  other : RelayError

abbrev pub server_error : ℕ → Bool
server_error status = leb 500 status && leb status 599

-- `retryableUpstreamError`
unfoldable pub retryable_upstream_error : RelayError → Bool
retryable_upstream_error (RelayError.upstream status wraps) =
    status == 401
    || status == 403
    || status == 404
    || status == 408
    || status == 409
    || status == 425
    || status == 429
    || server_error status
retryable_upstream_error RelayError.upstream_failed = true
retryable_upstream_error RelayError.credential_unavailable = true
retryable_upstream_error RelayError.provider_unsupported = true
retryable_upstream_error e = false

-- `retryableStreamError`
unfoldable pub retryable_stream_error : RelayError → Bool
retryable_stream_error (RelayError.upstream status wraps) =
    if status == 0
    then wraps
    else status == 408 || status == 425 || status == 429 || server_error status
retryable_stream_error RelayError.upstream_failed = true
retryable_stream_error e = false

-- `upstreamStatusCode`
unfoldable pub upstream_status_code : RelayError → ℕ
upstream_status_code (RelayError.upstream status wraps) = status
upstream_status_code e = 0

-- `channelWideFailure`
unfoldable pub channel_wide_failure : RelayError → Bool
channel_wide_failure (RelayError.upstream status wraps) = status == 401 || status == 403
channel_wide_failure RelayError.credential_unavailable = true
channel_wide_failure RelayError.upstream_failed = true
channel_wide_failure e = false
