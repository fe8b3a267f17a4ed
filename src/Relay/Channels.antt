-- ===== src/Relay/Channels.antt =====
-- `pickWeightedChannel` of internal/relay/types.go: among the channels that were not tried yet, one
-- of the highest priority, by weight.
use Prim.Native.String.{String, ◌++◌}
use model_bridge.Base.{
  ℕ, ◌-◌, List, [], ◌∷◌, Option, none, some, Bool, false, ◌&&◌, ◌||◌, not, ltb, ◌==◌, if◌then◌else◌,
  length, sum_by,
}
use model_bridge.Base.Int.{ℤ, pos_part, leb_ℤ}
use model_bridge.Base.Texts.{str_eq, trim_space}

-- `Channel`, in the fields that the choice and the attempts read.
pub record Channel : Type 0 where
  pub id : String
  pub provider : String
  pub base_url : String
  pub upstream_model_name : String
  pub model_name : String
  pub credential_ref : String
  pub priority : ℤ
  pub weight : ℤ

-- `channelKey`
unfoldable pub channel_key : Channel → String
channel_key c =
    if not (str_eq (trim_space c.id) "")
    then c.id
    else c.provider ++ "|" ++ c.base_url ++ "|" ++ c.upstream_model_name

abbrev pub contains : String → List String → Bool
contains k [] = false
contains k (l ∷ ls) = str_eq l k || contains k ls

-- `_, ok := attempted[channelKey(candidate)]; !ok`
abbrev pub is_new : List String → Channel → Bool
is_new attempted c = not (contains (channel_key c) attempted)

abbrev pub eq_ℤ : ℤ → ℤ → Bool
eq_ℤ a b = leb_ℤ a b && leb_ℤ b a

-- The first loop: the highest priority of a channel that is new.
unfoldable pub max_priority : List String → List Channel → Option ℤ → Option ℤ
max_priority attempted [] best = best
max_priority attempted (c ∷ cs) best = max_priority attempted cs (
    if not (is_new attempted c) then best else elim best [
      | none ↦ some c.priority
      | some b ↦ if leb_ℤ c.priority b then some b else some c.priority
    ])

-- The second loop: the pool of that priority.
unfoldable pub pool_of : List String → ℤ → List Channel → List Channel
pool_of attempted top [] = []
pool_of attempted top (c ∷ cs) =
    let rest = pool_of attempted top cs in
    if eq_ℤ c.priority top && is_new attempted c then c ∷ rest else rest

-- A weight that is not positive does not count.
abbrev pub weight_of : Channel → ℕ
weight_of c = pos_part c.weight

-- The last loop, at a target below the total weight; `last` is what follows it.
unfoldable pub by_weight : ℕ → List Channel → Option Channel → Option Channel
by_weight target [] last = last
by_weight target (c ∷ cs) last =
    let rest = by_weight (target - weight_of c) cs (some c) in
    if ltb target (weight_of c) then some c else rest

abbrev pub nth : ℕ → List Channel → Option Channel
nth n [] = none
nth n (c ∷ cs) = if n == 0 then some c else nth (n - 1) cs

-- `pickWeightedChannel`, with `mathrand.Intn` as a function.
module _ (intn : ℕ → ℕ) where
  unfoldable pub pick_from : List Channel → Option Channel
  pick_from [] = none
  pick_from (c ∷ cs) =
      let total = sum_by weight_of (c ∷ cs) in
      if total == 0
      then nth (intn (length (c ∷ cs))) (c ∷ cs)
      else by_weight (intn total) (c ∷ cs) none

  unfoldable pub pick_weighted_channel : List Channel → List String → Option Channel
  pick_weighted_channel candidates attempted = elim (max_priority attempted candidates none) [
    | none ↦ none
    | some top ↦ pick_from (pool_of attempted top candidates)
  ]
