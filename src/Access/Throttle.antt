-- ===== src/Access/Throttle.antt =====
-- `RequestThrottle` of internal/auth/request_throttle.go: a quota of requests for each subject.
use Prim.Native.String.{String, len, ◌++◌}
use model_bridge.Base.{
  ℕ, ◌+◌, ◌≤◌, ◌<◌, ◌≡◌, refl, List, [], ◌∷◌, Option, none, some, Bool, true, false, ◌&&◌, ◌||◌,
  not, leb, ltb, if◌then◌else◌, All, arith,
}
use model_bridge.Base.Texts.{str_eq, trim_space}
use model_bridge.Base.Tables.{Table, find, put}
use model_bridge.Base.Results.{Result, ok, ◌>>◌, guard}

-- A row of `login_throttles`. Times count from an epoch before all of them.
pub record Row : Type 0 where
  pub failure_count : ℕ
  pub first_failed_at : ℕ
  pub locked_until : Option ℕ

pub record Policy : Type 0 where
  pub max_requests : ℕ
  pub window : ℕ
  pub lock_for : ℕ

-- The test of `NewRequestThrottle`.
unfoldable pub valid_policy : Policy → Bool
valid_policy p = ltb 0 p.max_requests && ltb 0 p.window && ltb 0 p.lock_for

-- `lockedTill.Valid && lockedTill.Time.After(now)`
abbrev pub locked_at : ℕ → Option ℕ → Bool
locked_at now none = false
locked_at now (some until) = ltb now until

-- `Allow`, for the row of its subject: the answer and the row that it leaves.
unfoldable pub allow_row : Policy → ℕ → Option Row → Bool × Row
allow_row p now none =
    (true, record { failure_count = 1; first_failed_at = now; locked_until = none })
allow_row p now (some row) =
    if locked_at now row.locked_until
    then (false, row)
    else if ltb (row.first_failed_at + p.window) now
    then (true, record { failure_count = 1; first_failed_at = now; locked_until = none })
    else if leb p.max_requests row.failure_count
    then (false, record row { locked_until = some (now + p.lock_for) })
    else (true, record row { failure_count = row.failure_count + 1 })

pub data ThrottleError : Type 0 where
  invalid_subject : ThrottleError

-- `Allow`; the digest of a subject is that of `tokens.Hasher`.
module _ (digest : String → ℕ) where
  unfoldable pub allow :
      Policy → ℕ → String → String → Table Row → Result ThrottleError (Bool × Table Row)
  allow p now scope subject rows =
      let s = trim_space scope in
      let t = trim_space subject in
      let key = digest (s ++ ":" ++ t) in
      let answer = allow_row p now (find key rows) in
      guard (not (str_eq s "" || str_eq t "" || ltb 512 (len s + len t)))
        ThrottleError.invalid_subject
      >> ok (answer.0, put key answer.1 rows)

abbrev counts : Bool → ℕ
counts true = 1
counts false = 0

-- How many of the requests at the given times are allowed.
unfoldable pub allowed : Policy → List ℕ → Option Row → ℕ
allowed p [] row = 0
allowed p (now ∷ later) row =
    let answer = allow_row p now row in counts answer.0 + allowed p later (some answer.1)

abbrev pub bound : ℕ → ℕ → ℕ
bound a b = if leb a b then b else a

allowed-row :
    (p : Policy) (times : List ℕ) (row : Row)
    → All (λ (t : ℕ). t ≤ row.first_failed_at + p.window) times
    → row.failure_count + allowed p times (some row) ≤ bound p.max_requests row.failure_count
unfolding allowed allow_row
allowed-row p [] row h = ground arith
allowed-row p (now ∷ later) row h = ground (
  arith,
  h.0,
  allowed-row p later row h.1,
  allowed-row p later (record row { locked_until = some (now + p.lock_for) }) h.1,
  allowed-row p later (record row { failure_count = row.failure_count + 1 }) h.1,
)

-- Of the requests of a new subject, whatever their number and order, no more than the policy's
-- maximum are allowed within the window that begins with the first.
pub allowed-le_max :
    (p : Policy) (first : ℕ) (times : List ℕ)
    → valid_policy p ≡ true
    → All (λ (t : ℕ). t ≤ first + p.window) times
    → allowed p (first ∷ times) none ≤ p.max_requests
unfolding allowed allow_row valid_policy
allowed-le_max p first times valid h = ground (
  arith,
  valid,
  allowed-row p times (record { failure_count = 1; first_failed_at = first; locked_until = none })
      h,
)

refuses :
    (p : Policy) (now : ℕ) (row : Row)
    → locked_at now row.locked_until ≡ false
    → now ≤ row.first_failed_at + p.window
    → p.max_requests ≤ row.failure_count
    → allow_row p now (some row) ≡ (false, record row { locked_until = some (now + p.lock_for) })
unfolding allow_row
refuses p now row unlocked within over = ground (arith, unlocked, within, over)

refuses-locked :
    (p : Policy) (now until : ℕ) (row : Row)
    → now < until
    → allow_row p now (some (record row { locked_until = some until }))
      ≡ (false, record row { locked_until = some until })
unfolding allow_row
refuses-locked p now until row before = ground (arith, before)

-- A request over the quota locks its subject: it and every further request before the lock's end
-- are refused, and these leave the row as it is.
over_quota-locks :
    (p : Policy) (now later : ℕ) (row : Row)
    → locked_at now row.locked_until ≡ false
    → now ≤ row.first_failed_at + p.window
    → p.max_requests ≤ row.failure_count
    → later < now + p.lock_for
    → let refused = allow_row p now (some row) in
      (refused.0 ≡ false) × (allow_row p later (some refused.1) ≡ (false, refused.1))
over_quota-locks p now later row unlocked within over before =
    rw (refuses p now row unlocked within over)
      (refl, refuses-locked p later (now + p.lock_for) row before)
