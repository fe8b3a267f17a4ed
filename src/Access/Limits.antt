-- ===== src/Access/Limits.antt =====
-- The limits that `AcquireToken` of internal/tokens/issuer.go keeps.
use model_bridge.Base.{
  ℕ, ◌+◌, ◌≤◌, ◌<◌, ◌≡◌, ◌⊎◌, refl, inl, inr, subst, [], ◌∷◌, Option, none, some, ◌&&◌, ◌||◌, leb,
  ltb, ◌==◌, or_else, All, arith, Bool-cases,
}
use model_bridge.Base.Int.{ℤ}
use model_bridge.Base.Tables.{Table, find, put}
use model_bridge.Base.Results.{ok, ok-injective, >>=-eq-ok}
use model_bridge.Access.Limiter.{
  RateLimitPolicy, RateWindow, Usage, recent, consume, enter, at_least_one, count_request,
  count_active, acquire_token, release_token,
}

-- A window keeps the limits: the first request of a minute is admitted whatever its tokens.
pub record WithinWindow (p : RateLimitPolicy) (w : RateWindow) : Type 0 where
  pub requests : (p.rpm ≡ 0) ⊎ (w.request_count ≤ p.rpm)
  pub tokens : (p.tpm ≡ 0) ⊎ ((w.request_count ≡ 1) ⊎ (w.token_count ≤ p.tpm))

abbrev pub WithinActive : RateLimitPolicy → Option ℕ → Type 0
WithinActive p none = Unit
WithinActive p (some n) = (p.concurrency ≡ 0) ⊎ (n ≤ p.concurrency)

pub record Within (p : RateLimitPolicy) (u : Usage) : Type 0 where
  pub windows : All (λ (row : ℕ × RateWindow). WithinWindow p row.1) u.windows
  pub active : WithinActive p u.active

consume-Within :
    (p : RateLimitPolicy) (tokens : ℕ) (o : Option RateWindow) {w : RateWindow}
    → consume p tokens o ≡ ok w
    → WithinWindow p w
unfolding consume
consume-Within p tokens none h =
    subst (WithinWindow p) (ok-injective h)
      (record { requests = ground arith; tokens = inr (inl refl) })
consume-Within p tokens (some o) {w} h =
    elim (Bool-cases (
      (p.rpm == 0 || ltb o.request_count p.rpm)
      && (p.tpm == 0 || leb (o.token_count + tokens) p.tpm))) [
        | inl fits ↦
            subst (WithinWindow p) (ok-injective (rw fits at h))
              (record { requests = ground (arith, fits); tokens = ground (arith, fits) })
        | inr full ↦ cc (rw full at h)
      ]

abbrev WithinRow : RateLimitPolicy → ℕ × RateWindow → Type 0
WithinRow p row = WithinWindow p row.1

recent-Within :
    (p : RateLimitPolicy) (minute : ℕ) (t : Table RateWindow)
    → All (WithinRow p) t
    → All (WithinRow p) (recent minute t)
unfolding recent
recent-Within p minute [] h = tt
recent-Within p minute ((m, w) ∷ t) h = elim (Bool-cases (ltb (m + 2) minute)) [
  | inl old ↦ rw old (recent-Within p minute t h.1)
  | inr new ↦ rw new (h.0, recent-Within p minute t h.1)
]

put-Within :
    (p : RateLimitPolicy) (minute : ℕ) (w : RateWindow) (t : Table RateWindow)
    → WithinWindow p w
    → All (WithinRow p) t
    → All (WithinRow p) (put minute w t)
put-Within p minute w [] fits h = (fits, tt)
put-Within p minute w ((m, v) ∷ t) fits h = elim (Bool-cases (minute == m)) [
  | inl same ↦ rw same (fits, h.1)
  | inr other ↦ rw other (h.0, put-Within p minute w t fits h.1)
]

count_request-Within :
    (p : RateLimitPolicy) (minute tokens : ℕ) (windows : Table RateWindow)
    → All (WithinRow p) windows
    → {after : Table RateWindow} → count_request p minute tokens windows ≡ ok after
    → All (WithinRow p) after
unfolding count_request
count_request-Within p minute tokens windows h c = elim (Bool-cases (ltb 0 p.rpm || ltb 0 p.tpm)) [
  | inl limited ↦
      let (w, e, c1) =
        >>=-eq-ok (consume p tokens (find minute (recent minute windows))) _ (rw limited at c) in
      subst (All (WithinRow p)) (ok-injective c1) (
        put-Within p minute w (recent minute windows)
          (consume-Within p tokens (find minute (recent minute windows)) e)
          (recent-Within p minute windows h))
  | inr free ↦ subst (All (WithinRow p)) (ok-injective (rw free at c)) h
]

enter-Within :
    (p : RateLimitPolicy) (active : Option ℕ)
    → 0 < p.concurrency
    → {n : ℕ} → enter p active ≡ ok n
    → n ≤ p.concurrency
unfolding enter
enter-Within p none limited c = omega (arith, limited, ok-injective c)
enter-Within p (some k) limited {n} c = elim (Bool-cases (ltb k p.concurrency)) [
  | inl room ↦ let same : k + 1 ≡ n = ok-injective (rw room at c) in ground (arith, same, room)
  | inr full ↦ cc (rw full at c)
]

count_active-Within :
    (p : RateLimitPolicy) (active : Option ℕ)
    → WithinActive p active
    → {after : Option ℕ} → count_active p active ≡ ok after
    → WithinActive p after
unfolding count_active
count_active-Within p active h c = elim (Bool-cases (ltb 0 p.concurrency)) [
  | inl limited ↦
      let (n, e, c1) = >>=-eq-ok (enter p active) _ (rw limited at c) in
      subst (WithinActive p) (ok-injective c1)
        (inr (enter-Within p active (ground (arith, limited)) e))
  | inr free ↦ subst (WithinActive p) (ok-injective (rw free at c)) h
]

-- An admitted request keeps a token within its limits: in each window that is kept, the requests
-- do not pass the limit of requests, nor the tokens that of tokens unless the window holds a
-- single request, and the active requests do not pass the limit of concurrency.
pub acquire_token-Within :
    (p : RateLimitPolicy) (minute : ℕ) (estimated_tokens : ℤ) (u : Usage)
    → Within p u
    → {after : Usage} → acquire_token p minute estimated_tokens u ≡ ok after
    → Within p after
unfolding acquire_token
acquire_token-Within p minute estimated_tokens u h c =
    let (windows, e, c1) =
      >>=-eq-ok (count_request p minute (at_least_one estimated_tokens) u.windows) _ c in
    let (active, f, c2) = >>=-eq-ok (count_active p u.active) _ c1 in
    subst (Within p) (ok-injective c2) (record {
      windows = count_request-Within p minute (at_least_one estimated_tokens) u.windows h.windows e;
      active = count_active-Within p u.active h.active f;
    })

-- The number of active requests, which is zero where no row counts them.
abbrev pub active_count : Usage → ℕ
active_count u = or_else u.active 0

release-count :
    (p : RateLimitPolicy) (active : Option ℕ) (windows : Table RateWindow) {after : Option ℕ}
    → count_active p active ≡ ok after
    → active_count (release_token p (record { windows = windows; active = after }))
      ≡ or_else active 0
unfolding count_active release_token enter
release-count p none windows {after} c = elim (Bool-cases (ltb 0 p.concurrency)) [
  | inl limited ↦
      subst (λ a. active_count (release_token p (record { windows = windows; active = a })) ≡ 0)
        (ok-injective (rw limited at c)) (rw limited refl)
  | inr free ↦
      subst (λ a. active_count (release_token p (record { windows = windows; active = a })) ≡ 0)
        (ok-injective (rw free at c)) (rw free refl)
]
release-count p (some k) windows {after} c = elim (Bool-cases (ltb 0 p.concurrency)) [
  | inl limited ↦ elim (Bool-cases (ltb k p.concurrency)) [
    | inl room ↦
        subst (λ a. active_count (release_token p (record { windows = windows; active = a })) ≡ k)
          (ok-injective (rw (limited, room) at c)) (rw limited (omega arith))
    | inr full ↦ cc (rw (limited, full) at c)
  ]
  | inr free ↦
      subst (λ a. active_count (release_token p (record { windows = windows; active = a })) ≡ k)
        (ok-injective (rw free at c)) (rw free refl)
]

-- A request that is admitted and then finished gives its place back.
pub release-acquire :
    (p : RateLimitPolicy) (minute : ℕ) (estimated_tokens : ℤ) (u : Usage) {after : Usage}
    → acquire_token p minute estimated_tokens u ≡ ok after
    → active_count (release_token p after) ≡ active_count u
unfolding acquire_token release_token
release-acquire p minute estimated_tokens u c =
    let (windows, e, c1) =
      >>=-eq-ok (count_request p minute (at_least_one estimated_tokens) u.windows) _ c in
    let (active, f, c2) = >>=-eq-ok (count_active p u.active) _ c1 in
    subst (λ (x : Usage). active_count (release_token p x) ≡ active_count u) (ok-injective c2)
      (release-count p u.active windows f)
