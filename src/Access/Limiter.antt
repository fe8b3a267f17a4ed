-- ===== src/Access/Limiter.antt =====
-- `AcquireToken` of internal/tokens/issuer.go: requests and tokens per minute, and concurrency.
use model_bridge.Base.{
  ℕ, ◌+◌, ◌-◌, [], ◌∷◌, Option, none, some, ◌&&◌, ◌||◌, leb, ltb, ◌==◌, if◌then◌else◌,
}
use model_bridge.Base.Int.{ℤ, pos, negsuc}
use model_bridge.Base.Tables.{Table, find, put}
use model_bridge.Base.Results.{Result, ok, err, ◌>>=◌}

-- `rateLimitPolicy`; zero means no limit.
pub record RateLimitPolicy : Type 0 where
  pub rpm : ℕ
  pub tpm : ℕ
  pub concurrency : ℕ

-- A row of `api_token_rate_windows`, keyed by its minute.
pub record RateWindow : Type 0 where
  pub request_count : ℕ
  pub token_count : ℕ

-- The rows of one token: its windows, and its row of `api_token_concurrency`.
pub record Usage : Type 0 where
  pub windows : Table RateWindow
  pub active : Option ℕ

pub data LimiterError : Type 0 where
  token_rate_limited : LimiterError

-- Windows that ended more than two minutes ago are deleted.
unfoldable pub recent : ℕ → Table RateWindow → Table RateWindow
recent minute [] = []
recent minute ((m, w) ∷ t) =
    let rest = recent minute t in if ltb (m + 2) minute then rest else (m, w) ∷ rest

-- The upsert of a window: an insert is not checked, an update is.
unfoldable pub consume : RateLimitPolicy → ℕ → Option RateWindow → Result LimiterError RateWindow
consume p tokens none = ok (record { request_count = 1; token_count = tokens })
consume p tokens (some w) =
    if (p.rpm == 0 || ltb w.request_count p.rpm)
      && (p.tpm == 0 || leb (w.token_count + tokens) p.tpm)
    then ok (record { request_count = w.request_count + 1; token_count = w.token_count + tokens })
    else err LimiterError.token_rate_limited

-- The upsert of the number of active requests.
unfoldable pub enter : RateLimitPolicy → Option ℕ → Result LimiterError ℕ
enter p none = ok 1
enter p (some n) = if ltb n p.concurrency then ok (n + 1) else err LimiterError.token_rate_limited

-- `estimatedTokens`, at least one.
unfoldable pub at_least_one : ℤ → ℕ
at_least_one (pos n) = if ltb n 1 then 1 else n
at_least_one (negsuc n) = 1

-- The windows after an admitted request.
unfoldable pub count_request :
    RateLimitPolicy → ℕ → ℕ → Table RateWindow → Result LimiterError (Table RateWindow)
count_request p minute tokens windows =
    let kept = recent minute windows in
    if ltb 0 p.rpm || ltb 0 p.tpm
    then (consume p tokens (find minute kept) >>= λ w. ok (put minute w kept))
    else ok windows

unfoldable pub count_active : RateLimitPolicy → Option ℕ → Result LimiterError (Option ℕ)
count_active p active =
    if ltb 0 p.concurrency then (enter p active >>= λ n. ok (some n)) else ok active

-- `AcquireToken` in a minute; an error rolls the transaction back. Without limits it does nothing.
unfoldable pub acquire_token : RateLimitPolicy → ℕ → ℤ → Usage → Result LimiterError Usage
acquire_token p minute estimated_tokens u =
    count_request p minute (at_least_one estimated_tokens) u.windows >>= λ windows.
    count_active p u.active >>= λ active. ok (record { windows = windows; active = active })

-- The callback, the first time that it is called.
unfoldable pub release_token : RateLimitPolicy → Usage → Usage
release_token p u =
    if ltb 0 p.concurrency
    then elim u.active [ none ↦ u | some n ↦ record u { active = some (n - 1) } ]
    else u
