-- ===== src/Relay/Choice.antt =====
-- What the choice of internal/relay/types.go guarantees.
use Prim.Native.String.{String}
use model_bridge.Base.{
  ℕ, ◌+◌, ◌-◌, ◌<◌, ◌≡◌, ◌⊎◌, refl, List, [], ◌∷◌, ◌++◌, Option, none, some, true, ◌&&◌, not, ltb,
  ◌==◌, length, sum_by, arith, Bool-cases, Option-cases, inl, inr,
}
use model_bridge.Base.Int.{ℤ, leb_ℤ, ◌≤ℤ◌}
use model_bridge.Relay.Channels.{
  Channel, is_new, eq_ℤ, max_priority, pool_of, weight_of, by_weight, nth, pick_from,
  pick_weighted_channel,
}

-- The channel is in the list.
abbrev pub Among : Channel → List Channel → Type 0
Among c [] = ⊥
Among c (d ∷ ds) = (c ≡ d) ⊎ Among c ds

by_weight-Among :
    (target : ℕ) (cs : List Channel) (last : Option Channel) {c : Channel}
    → by_weight target cs last ≡ some c
    → Among c cs ⊎ (last ≡ some c)
unfolding by_weight
by_weight-Among target [] last h = inr h
by_weight-Among target (d ∷ ds) last {c} h = elim (Bool-cases (ltb target (weight_of d))) [
  | inl here ↦ let same : c ≡ d = cc (rw here at h) in inl (inl same)
  | inr more ↦ elim (by_weight-Among (target - weight_of d) ds (some d) {c = c} (rw more at h)) [
    | inl later ↦ inl (inr later)
    | inr this ↦ let same : c ≡ d = cc this in inl (inl same)
  ]
]

nth-Among : (n : ℕ) (cs : List Channel) {c : Channel} → nth n cs ≡ some c → Among c cs
nth-Among n [] h = cc
nth-Among n (d ∷ ds) {c} h = elim (Bool-cases (n == 0)) [
  | inl here ↦ let same : c ≡ d = cc (rw here at h) in inl same
  | inr more ↦ inr (nth-Among (n - 1) ds (rw more at h))
]

not_last : {c : Channel} → Among c [] ⊎ (◌≡◌ {A = Option Channel} none (some c)) → ⊥
not_last (inl a) = a
not_last (inr h) = cc

pick_from-Among :
    (intn : ℕ → ℕ) (cs : List Channel) {c : Channel} → pick_from intn cs ≡ some c → Among c cs
unfolding pick_from
pick_from-Among intn [] h = cc
pick_from-Among intn (d ∷ ds) {c} h = elim (Bool-cases (sum_by weight_of (d ∷ ds) == 0)) [
  | inl even ↦ nth-Among (intn (length (d ∷ ds))) (d ∷ ds) (rw even at h)
  | inr weighted ↦
      elim (by_weight-Among (intn (sum_by weight_of (d ∷ ds))) (d ∷ ds) none {c = c}
        (rw weighted at h)) [ inl a ↦ a | inr absent ↦ cc absent ]
]

-- What the pool holds.
record InPool (attempted : List String) (top : ℤ) (candidates : List Channel) (c : Channel)
    : Type 0 where
  pub candidate : Among c candidates
  pub fresh : is_new attempted c ≡ true
  pub level : eq_ℤ c.priority top ≡ true

pool_of-InPool :
    (attempted : List String) (top : ℤ) (cs : List Channel) (c : Channel)
    → Among c (pool_of attempted top cs)
    → InPool attempted top cs c
unfolding pool_of
pool_of-InPool attempted top [] c h = absurd h
pool_of-InPool attempted top (d ∷ ds) c h =
    elim (Bool-cases (eq_ℤ d.priority top && is_new attempted d)) [
      | inl taken ↦ elim (rw taken at h) [
        | inl same ↦ rw same (record {
          candidate = inl refl;
          fresh = ground (taken, arith);
          level = ground (taken, arith);
        })
        | inr later ↦
            let p = pool_of-InPool attempted top ds c later in
            record { candidate = inr p.candidate; fresh = p.fresh; level = p.level }
      ]
      | inr skipped ↦
          let p = pool_of-InPool attempted top ds c (rw skipped at h) in
          record { candidate = inr p.candidate; fresh = p.fresh; level = p.level }
    ]

-- A best so far only grows.
max_priority-above :
    (attempted : List String) (cs : List Channel) (best top : ℤ)
    → max_priority attempted cs (some best) ≡ some top
    → best ≤ℤ top
unfolding max_priority
max_priority-above attempted [] best top h = let same : best ≡ top = cc h in rw same (omega arith)
max_priority-above attempted (c ∷ cs) best top h = elim (Bool-cases (not (is_new attempted c))) [
  | inl tried ↦ max_priority-above attempted cs best top (rw tried at h)
  | inr new ↦ elim (Bool-cases (leb_ℤ c.priority best)) [
    | inl lower ↦ max_priority-above attempted cs best top (rw (new, lower) at h)
    | inr higher ↦
        let above = max_priority-above attempted cs c.priority top (rw (new, higher) at h) in
        ground (arith, higher, above)
  ]
]

-- Every channel that is new is at most the highest priority.
max_priority-bound :
    (attempted : List String) (cs : List Channel) (best : Option ℤ) (top : ℤ) (d : Channel)
    → max_priority attempted cs best ≡ some top
    → Among d cs
    → is_new attempted d ≡ true
    → d.priority ≤ℤ top
unfolding max_priority
max_priority-bound attempted [] best top d h a new = absurd a
max_priority-bound attempted (c ∷ cs) best top d h (inr later) new =
    max_priority-bound attempted cs _ top d h later new
max_priority-bound attempted (c ∷ cs) none top d h (inl same) new =
    let new' : is_new attempted c ≡ true = rw same at new in
    rw same (max_priority-above attempted cs c.priority top (rw new' at h))
max_priority-bound attempted (c ∷ cs) (some best) top d h (inl same) new =
    let new' : is_new attempted c ≡ true = rw same at new in
    rw same (elim (Bool-cases (leb_ℤ c.priority best)) [
      | inl lower ↦
          let above = max_priority-above attempted cs best top (rw (new', lower) at h) in
          ground (arith, lower, above)
      | inr higher ↦ max_priority-above attempted cs c.priority top (rw (new', higher) at h)
    ])

-- A channel that is picked is a candidate that was not tried, and no candidate that was not tried
-- has a higher priority, whatever the random numbers are.
pub pick_weighted_channel-best :
    (intn : ℕ → ℕ) (candidates : List Channel) (attempted : List String) (c d : Channel)
    → pick_weighted_channel intn candidates attempted ≡ some c
    → Among d candidates
    → is_new attempted d ≡ true
    → Among c candidates × (is_new attempted c ≡ true) × (d.priority ≤ℤ c.priority)
unfolding pick_weighted_channel
pick_weighted_channel-best intn candidates attempted c d h a new =
    elim (Option-cases (max_priority attempted candidates none)) [
      | inl e ↦ cc (rw (e, pick_weighted_channel) at h)
      | inr (top, e) ↦
          let pool = pool_of attempted top candidates in
          let p =
            pool_of-InPool attempted top candidates c
              (pick_from-Among intn pool (rw (e, pick_weighted_channel) at h)) in
          let bound = max_priority-bound attempted candidates none top d e a new in
          (p.candidate, p.fresh, ground (arith, p.level, bound))
    ]

pub pick_weighted_channel-fresh :
    (intn : ℕ → ℕ) (candidates : List Channel) (attempted : List String) (c : Channel)
    → pick_weighted_channel intn candidates attempted ≡ some c
    → Among c candidates × (is_new attempted c ≡ true)
unfolding pick_weighted_channel
pick_weighted_channel-fresh intn candidates attempted c h =
    elim (Option-cases (max_priority attempted candidates none)) [
      | inl e ↦ cc (rw (e, pick_weighted_channel) at h)
      | inr (top, e) ↦
          let p = pool_of-InPool attempted top candidates c (
            pick_from-Among intn (pool_of attempted top candidates)
              (rw (e, pick_weighted_channel) at h)) in
          (p.candidate, p.fresh)
    ]

-- A target picks the channel on whose part of the total weight it falls: each channel is picked
-- for exactly as many targets as its weight says.
pub by_weight-share :
    (before after : List Channel) (c : Channel) (k : ℕ) (last : Option Channel)
    → k < weight_of c
    → by_weight (sum_by weight_of before + k) (before ++ c ∷ after) last ≡ some c
unfolding by_weight
by_weight-share [] after c k last h = ground (arith, h)
by_weight-share (d ∷ ds) after c k last h = ground (arith, by_weight-share ds after c k (some d) h)
