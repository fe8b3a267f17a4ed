-- ===== src/Relay/Biller.antt =====
-- What internal/relay asks of the billing service: the methods of `billing.Service` and of the
-- optional interfaces that internal/relay/advanced.go looks for, as operations on a store. A method
-- that returns an error leaves the store as it is.
use Prim.Native.String.{String}
use model_bridge.Base.{ℕ, ◌≡◌, Bool}
use model_bridge.Base.Results.{Result, ok}
use model_bridge.Ledger.State.{BillingError}
use model_bridge.Ledger.Reported.{Usage}
use model_bridge.Relay.Channels.{Channel}

abbrev pub Write : Type 0 → Type 0
Write B = B → Result BillingError (Unit {0} × B)

-- `reserve` and `start_free` build their request from the channel, and return an identifier.
pub record Biller (B : Type 0) : Type 0 where
  pub reserve : Channel → B → Result BillingError (ℕ × B)
  pub rebind : ℕ → Channel → Write B
  pub can_settle : ℕ → B → Result BillingError Bool
  pub settle : ℕ → Usage → Write B
  pub mark_pending : ℕ → String → Write B
  pub mark_pending_with_usage : ℕ → String → Usage → Write B
  pub fail : ℕ → String → Write B
  pub start_free : Channel → B → Result BillingError (ℕ × B)
  pub rebind_free : ℕ → Channel → Write B
  pub complete_free : ℕ → Usage → Write B
  pub fail_free : ℕ → String → Write B

-- What the relay relies on: after a settlement or a mark that succeeds, the reservation is settled
-- or awaits its settlement, as `billed` says.
pub record IsLawful {B : Type 0} (biller : Biller B) (billed : ℕ → B → Type 0) : Type 0 where
  pub settled :
      (id : ℕ) (usage : Usage) (b b' : B) → biller.settle id usage b ≡ ok (tt, b') → billed id b'
  pub marked :
      (id : ℕ) (reason : String) (b b' : B)
      → biller.mark_pending id reason b ≡ ok (tt, b')
      → billed id b'
  pub marked_with_usage :
      (id : ℕ) (reason : String) (usage : Usage) (b b' : B)
      → biller.mark_pending_with_usage id reason usage b ≡ ok (tt, b')
      → billed id b'
