-- ===== src/Relay/Ends.antt =====
-- The loop of `ChatCompletions` in internal/relay/types.go ends, and asks no channel twice.
use Prim.Native.String.{String}
use model_bridge.Base.{
  ℕ, zero, suc, ◌+◌, ◌<◌, ◌≤◌, ◌≡◌, refl, Bool, true, false, inl, inr, List, [], ◌∷◌, Bool-cases,
  Option-cases, ltb, length, arith,
}
use model_bridge.Relay.Channels.{Channel, channel_key, is_new, contains, pick_weighted_channel}
use model_bridge.Relay.Choice.{pick_weighted_channel-fresh}
use model_bridge.Relay.Biller.{Biller}
use model_bridge.Relay.Attempts.{Line, Progress, Next, try_channel}
use model_bridge.Relay.Tries.{try_channel-attempted}
use model_bridge.Relay.Chat.{Stop, follow, chat_loop, nothing_tried}

-- No key occurs twice.
abbrev pub Distinct : List String → Type 0
Distinct [] = Unit
Distinct (k ∷ ks) = (contains k ks ≡ false) × Distinct ks

abbrev pub runs_out : Stop → Bool
runs_out Stop.out_of_fuel = true
runs_out Stop.leaves = false
runs_out (Stop.returned r) = false

module _ {B : Type 0} (biller : Biller B) (line : Line) (intn : ℕ → ℕ)
    (candidates : List Channel) where
  -- What the loop keeps: the keys are distinct, and there are at most as many as candidates.
  record Bounded (keys : List String) : Type 0 where
    pub distinct : Distinct keys
    pub few : length keys ≤ length candidates

  again-Bounded :
      (keys : List String) (c : Channel)
      → Bounded keys
      → is_new keys c ≡ true
      → length keys < length candidates
      → Bounded (channel_key c ∷ keys)
  again-Bounded keys c h fresh room = record {
    distinct = (ground (fresh, arith), h.distinct);
    few = omega (room, arith);
  }

  -- An end of the loop with its fuel left.
  record Ends (ended : Progress B × Stop) : Type 0 where
    pub bounded : Bounded ended.0.attempted
    pub enough : runs_out ended.1 ≡ false

  follow-Ends :
      (tried : Progress B × Next) (again : Progress B → Progress B × Stop)
      → Bounded tried.0.attempted
      → Ends (again tried.0)
      → Ends (follow biller line intn tried again)
  follow-Ends (a, Next.continues) again h later = later
  follow-Ends (a, Next.stops) again h later = record { bounded = h; enough = refl }
  follow-Ends (a, Next.returns r) again h later = record { bounded = h; enough = refl }

  chat_loop-Ends :
      (fuel : ℕ) (a : Progress B)
      → Bounded a.attempted
      → length candidates < fuel + length a.attempted
      → Ends (chat_loop biller line intn fuel candidates a)
  unfolding chat_loop
  chat_loop-Ends zero a h short = absurd (omega (short, h.few, arith))
  chat_loop-Ends (suc fuel) a h short =
      elim (Bool-cases (ltb (length a.attempted) (length candidates))) [
        | inr full ↦ rw full (record { bounded = h; enough = refl })
        | inl room ↦ elim (Option-cases (pick_weighted_channel intn candidates a.attempted)) [
          | inl nothing ↦ rw (room, nothing) (record { bounded = h; enough = refl })
          | inr (c, picked) ↦
              let noted = try_channel-attempted biller line a c in
              let fresh = pick_weighted_channel-fresh intn candidates a.attempted c picked in
              let kept : Bounded (try_channel biller line a c).0.attempted =
                rw noted (again-Bounded a.attempted c h fresh.1 (ground (room, arith))) in
              let less : length candidates
                  < fuel + length (try_channel biller line a c).0.attempted =
                rw noted (ground (short, arith)) in
              rw (room, picked)
                (follow-Ends (try_channel biller line a c)
                  (λ tried. chat_loop biller line intn fuel candidates tried) kept
                  (chat_loop-Ends fuel (try_channel biller line a c).0 kept less))
        ]
      ]

  -- With one step more than there are candidates, the loop of `ChatCompletions` ends before its fuel
  -- is spent; at its end no channel key was tried twice, and no more keys than there are candidates,
  -- whichever channels the random numbers pick, whatever their providers answer and whether or not
  -- the request is paid.
  pub chat_loop-ends :
      (b : B)
      → let ended =
          chat_loop biller line intn
            (suc (length candidates))
            candidates
            (nothing_tried biller line intn b) in
        (runs_out ended.1 ≡ false)
        × Distinct ended.0.attempted
        × (length ended.0.attempted ≤ length candidates)
  chat_loop-ends b =
      let e =
        chat_loop-Ends (suc (length candidates)) (nothing_tried biller line intn b)
          (record { distinct = tt; few = omega arith }) (omega arith) in
      (e.enough, e.bounded.distinct, e.bounded.few)
