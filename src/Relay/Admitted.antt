-- ===== src/Relay/Admitted.antt =====
-- A tenant's request to `ChatCompletions` in internal/relay/types.go, from its checks to its answer.
use Prim.Native.String.{String}
use model_bridge.Base.{
  ℕ, ◌≡◌, refl, sym, ◌∙◌, List, Bool, true, false, ◌||◌, not, ltb, if◌then◌else◌, some, inl, inr,
  length, subst,
}
use model_bridge.Base.Texts.{str_eq, trim_space}
use model_bridge.Base.Results.{ok, guard-then, >>=-eq-ok, ok-injective, Result-cases}
use model_bridge.Relay.Channels.{Channel}
use model_bridge.Relay.Biller.{Biller, IsLawful}
use model_bridge.Relay.Answers.{ChatResponse}
use model_bridge.Relay.Attempts.{Line}
use model_bridge.Relay.Chat.{
  Gate, Principal, GroupPolicy, model_allowed, resolve_group_policy, within_rpm, admitted,
  chat_completions,
}
use model_bridge.Relay.Paid.{IsBilled}
use model_bridge.Relay.Untracked.{relay_chat-IsBilled}

-- A principal of a tenant, and the policy of its group, which is not free.
pub record IsPaying (gate : Gate) (p : Principal) (policy : GroupPolicy) : Type 0 where
  pub tenant : str_eq (trim_space p.tenant_id) "" ≡ false
  pub resolved : resolve_group_policy gate p ≡ ok policy
  pub priced : str_eq policy.billing_type "free" ≡ false

admitted-paid :
    (gate : Gate) (p : Principal) (policy : GroupPolicy) (stream : Bool) (model : String)
    {candidates : List Channel} {paid : Bool}
    → IsPaying gate p policy
    → admitted gate (some p) stream model ≡ ok (candidates, paid)
    → paid ≡ true
unfolding admitted
admitted-paid gate p policy stream model {candidates} {paid} h c =
    let (_, c1) = guard-then (not stream) _ _ c in
    let (_, _, c2) = >>=-eq-ok gate.validate _ c1 in
    let (_, c3) = guard-then (model_allowed (some p) model) _ _ c2 in
    let (_, _, c4) =
      >>=-eq-ok (if str_eq p.token_id "" then ok tt else gate.acquire_token p.token_id) _ c3 in
    let (found, e, c5) = >>=-eq-ok (resolve_group_policy gate p) _ c4 in
    let (_, c6) =
      guard-then (str_eq (trim_space found.status) "" || str_eq found.status "active") _ _ c5 in
    let (billable, c7) =
      guard-then (str_eq (trim_space p.tenant_id) "" || gate.has_billing) _ _ c6 in
    let (_, _, c8) = >>=-eq-ok (within_rpm gate found) _ c7 in
    let (cs, _, c9) = >>=-eq-ok gate.candidates _ c8 in
    let (_, c10) = guard-then (ltb 0 (length cs)) _ _ c9 in
    let same : found ≡ policy = ok-injective (sym e ∙ h.resolved) in
    let free : str_eq found.billing_type "free" ≡ false = rw same h.priced in
    let billing : gate.has_billing ≡ true = rw h.tenant at billable in
    subst (λ (x : List Channel × Bool). x.1 ≡ true) (ok-injective c10) (rw (billing, free) refl)

module _ {B : Type 0} (biller : Biller B) (billed : ℕ → B → Type 0)
    (lawful : IsLawful biller billed) (line : Line) (intn : ℕ → ℕ) where
  -- Let the billing service be lawful, which says that after a settlement or a mark that succeeds
  -- the reservation is settled or awaits its settlement. Where a principal of a tenant whose group
  -- is not free gets an answer from `ChatCompletions`, then a reservation was made and it is settled
  -- or awaits its settlement in the store that is left: whichever channels failed before, whatever
  -- usage the upstream reported, and whichever writes of the billing service failed.
  pub chat_completions-IsBilled :
      (gate : Gate) (p : Principal) (policy : GroupPolicy) (stream : Bool) (b : B)
      (r : ChatResponse)
      → IsPaying gate p policy
      → (chat_completions biller line intn gate (some p) stream b).1 ≡ ok r
      → IsBilled biller billed lawful line
          (chat_completions biller line intn gate (some p) stream b).0
  unfolding chat_completions
  chat_completions-IsBilled gate p policy stream b r h c =
      elim (Result-cases (admitted gate (some p) stream line.model)) [
        | inr (e, f) ↦ cc (rw (f, chat_completions) at c)
        | inl ((candidates, paid), f) ↦
            let is_paid = admitted-paid gate p policy stream line.model h f in
            rw (f, chat_completions)
              (relay_chat-IsBilled biller billed lawful (record line { billing_enabled = paid })
                is_paid intn candidates b r (rw (f, chat_completions) at c))
      ]
