-- ===== src/Relay/Found.antt =====
-- The choice of internal/relay/types.go always finds a channel while one is left.
use Prim.Native.String.{String}
use model_bridge.Base.{
  ℕ, ◌-◌, ◌<◌, ◌≡◌, ◌⊎◌, refl, sym, List, [], ◌∷◌, Option, none, some, true, false, ◌&&◌, not, ltb,
  ◌==◌, if◌then◌else◌, length, sum_by, arith, Bool-cases, inl, inr,
}
use model_bridge.Base.Int.{ℤ, leb_ℤ}
use model_bridge.Relay.Channels.{
  Channel, is_new, eq_ℤ, max_priority, pool_of, weight_of, by_weight, nth, pick_from,
  pick_weighted_channel,
}
use model_bridge.Relay.Choice.{Among}

abbrev IsFound : Option Channel → Type 0
IsFound o = (c : Channel) × (o ≡ some c)

by_weight-IsFound :
    (target : ℕ) (cs : List Channel) (last : Channel) → IsFound (by_weight target cs (some last))
unfolding by_weight
by_weight-IsFound target [] last = (last, refl)
by_weight-IsFound target (c ∷ cs) last = elim (Bool-cases (ltb target (weight_of c))) [
  | inl here ↦ rw here (c, refl)
  | inr more ↦ rw more (by_weight-IsFound (target - weight_of c) cs c)
]

nth-IsFound : (n : ℕ) (cs : List Channel) → n < length cs → IsFound (nth n cs)
nth-IsFound n [] h = absurd (omega (arith, h))
nth-IsFound n (c ∷ cs) h = elim (Bool-cases (n == 0)) [
  | inl here ↦ rw here (c, refl)
  | inr more ↦ rw more (nth-IsFound (n - 1) cs (ground (arith, h, more)))
]

pick_from-IsFound :
    (intn : ℕ → ℕ) (c : Channel) (cs : List Channel)
    → intn (length (c ∷ cs)) < length (c ∷ cs)
    → IsFound (pick_from intn (c ∷ cs))
unfolding pick_from by_weight
pick_from-IsFound intn c cs h = elim (Bool-cases (sum_by weight_of (c ∷ cs) == 0)) [
  | inl even ↦ rw even (nth-IsFound (intn (length (c ∷ cs))) (c ∷ cs) h)
  | inr weighted ↦
      rw weighted (elim (Bool-cases (ltb (intn (sum_by weight_of (c ∷ cs))) (weight_of c))) [
        | inl here ↦ rw here (c, refl)
        | inr more ↦
            rw more (by_weight-IsFound (intn (sum_by weight_of (c ∷ cs)) - weight_of c) cs c)
      ])
]

-- The best priority after a channel that is new.
met_at :
    (attempted : List String) (c : Channel) (best : Option ℤ) (top : ℤ)
    → is_new attempted c ≡ true
    → (elim best [
      | none ↦ some c.priority
      | some b ↦ if leb_ℤ c.priority b then some b else some c.priority
    ])
      ≡ some top
    → (cs : List Channel)
    → (best ≡ some top)
      ⊎ ((d : Channel) × Among d (c ∷ cs) × (is_new attempted d ≡ true) × (d.priority ≡ top))
met_at attempted c none top new h cs = inr (c, inl refl, new, cc h)
met_at attempted c (some b) top new h cs = elim (Bool-cases (leb_ℤ c.priority b)) [
  | inl lower ↦ inl (rw lower at h)
  | inr higher ↦ inr (c, inl refl, new, cc (rw higher at h))
]

-- The highest priority is one that was met, or that of a channel in the list that is new.
max_priority-attained :
    (attempted : List String) (cs : List Channel) (best : Option ℤ) (top : ℤ)
    → max_priority attempted cs best ≡ some top
    → (best ≡ some top)
      ⊎ ((c : Channel) × Among c cs × (is_new attempted c ≡ true) × (c.priority ≡ top))
unfolding max_priority
max_priority-attained attempted [] best top h = inl h
max_priority-attained attempted (c ∷ cs) best top h =
    elim (max_priority-attained attempted cs _ top h) [
      | inr (d, a, new, e) ↦ inr (d, inr a, new, e)
      | inl met ↦ elim (Bool-cases (is_new attempted c)) [
        | inl new ↦ met_at attempted c best top new (rw new at met) cs
        | inr tried ↦ inl (rw tried at met)
      ]
    ]

eq_ℤ-refl : (z : ℤ) → eq_ℤ z z ≡ true
eq_ℤ-refl z = ground arith

taken_not_skipped :
    (attempted : List String) (top : ℤ) (c d : Channel)
    → c ≡ d
    → is_new attempted c ≡ true
    → c.priority ≡ top
    → (eq_ℤ d.priority top && is_new attempted d) ≡ false
    → ⊥
taken_not_skipped attempted top c d same new level skipped =
    let here : (eq_ℤ c.priority top && is_new attempted c) ≡ false = rw (sym same) at skipped in
    cc (rw (new, level, eq_ℤ-refl top) at here)

pool_of-cons :
    (attempted : List String) (top : ℤ) (cs : List Channel) (c : Channel)
    → Among c cs
    → is_new attempted c ≡ true
    → c.priority ≡ top
    → (d : Channel) × (ds : List Channel) × (pool_of attempted top cs ≡ d ∷ ds)
unfolding pool_of
pool_of-cons attempted top [] c a new level = absurd a
pool_of-cons attempted top (d ∷ ds) c a new level =
    elim (Bool-cases (eq_ℤ d.priority top && is_new attempted d)) [
      | inl taken ↦ rw taken (d, pool_of attempted top ds, refl)
      | inr skipped ↦ elim a [
        | inl same ↦ absurd (taken_not_skipped attempted top c d same new level skipped)
        | inr later ↦ rw skipped (pool_of-cons attempted top ds c later new level)
      ]
    ]

max_priority-kept :
    (attempted : List String) (cs : List Channel) (best : ℤ)
    → (top : ℤ) × (max_priority attempted cs (some best) ≡ some top)
unfolding max_priority
max_priority-kept attempted [] best = (best, refl)
max_priority-kept attempted (c ∷ cs) best = elim (Bool-cases (not (is_new attempted c))) [
  | inl tried ↦ rw tried (max_priority-kept attempted cs best)
  | inr new ↦ elim (Bool-cases (leb_ℤ c.priority best)) [
    | inl lower ↦ rw (new, lower) (max_priority-kept attempted cs best)
    | inr higher ↦ rw (new, higher) (max_priority-kept attempted cs c.priority)
  ]
]

-- A candidate that is new gives a highest priority.
max_priority-some :
    (attempted : List String) (cs : List Channel) (best : Option ℤ) (c : Channel)
    → Among c cs
    → is_new attempted c ≡ true
    → (top : ℤ) × (max_priority attempted cs best ≡ some top)
unfolding max_priority
max_priority-some attempted [] best c a new = absurd a
max_priority-some attempted (d ∷ ds) best c (inr later) new =
    max_priority-some attempted ds _ c later new
max_priority-some attempted (d ∷ ds) none c (inl same) new =
    let new' : is_new attempted d ≡ true = rw same at new in
    rw new' (max_priority-kept attempted ds d.priority)
max_priority-some attempted (d ∷ ds) (some b) c (inl same) new =
    max_priority-kept attempted (d ∷ ds) b

-- While a candidate was not tried, a channel is picked, where the random numbers are below their
-- bounds.
pub pick_weighted_channel-IsFound :
    (intn : ℕ → ℕ) (candidates : List Channel) (attempted : List String) (d : Channel)
    → ((n : ℕ) → 0 < n → intn n < n)
    → Among d candidates
    → is_new attempted d ≡ true
    → (c : Channel) × (pick_weighted_channel intn candidates attempted ≡ some c)
unfolding pick_weighted_channel
pick_weighted_channel-IsFound intn candidates attempted d below a new =
    let (top, e) = max_priority-some attempted candidates none d a new in
    elim (max_priority-attained attempted candidates none top e) [
      | inl met ↦ cc met
      | inr (best, b, fresh, level) ↦
          let (c, cs, p) = pool_of-cons attempted top candidates best b fresh level in
          rw (e, p, pick_weighted_channel)
            (pick_from-IsFound intn c cs (below (length (c ∷ cs)) (omega arith)))
    ]
