-- ===== src/Relay/Books.antt =====
-- The billing service of internal/billing/service.go as the biller of internal/relay.
--
-- `request_for` is the request of the call, whose channel is the one that is tried, and `channel_id`
-- the number under which the ledger keeps a channel. The operations of free requests are those of
-- `others`.
use Prim.Native.String.{len}
use model_bridge.Base.{ℕ, ◌⊎◌, none, inl, ◌&&◌, not, leb}
use model_bridge.Base.Texts.{str_eq, trim_space}
use model_bridge.Base.Results.{guard-then, >>=-eq-ok}
use model_bridge.Metering.Usage.{normalize_metered_usage}
use model_bridge.Ledger.State.{ReservationStatus, Database}
use model_bridge.Ledger.Quote.{Catalog, Request}
use model_bridge.Ledger.Rebind.{rebind_reservation_channel}
use model_bridge.Ledger.Reserve.{Fresh, reserve}
use model_bridge.Ledger.Reported.{valid_usage_source, normalize_usage, usage_metrics_for}
use model_bridge.Ledger.Settle.{settle, can_settle_without_usage, or_invalid}
use model_bridge.Ledger.Release.{
  fail, mark_settlement_pending, mark_settlement_pending_with_usage, reported,
}
use model_bridge.Ledger.Retries.{Found, settle-Found, mark-Found}
use model_bridge.Relay.Channels.{Channel}
use model_bridge.Relay.Biller.{Biller, IsLawful}

module _ (catalog : Catalog) (fresh : Fresh) (request_for : Channel → Request)
    (channel_id : Channel → ℕ) (others : Biller Database) where
  unfoldable pub billing_service : Biller Database
  billing_service = record others {
    reserve = λ c db. reserve catalog fresh (request_for c) db;
    rebind = λ id c db. rebind_reservation_channel catalog id (channel_id c) db;
    can_settle = can_settle_without_usage;
    settle = settle;
    mark_pending = λ id reason db. mark_settlement_pending id reason none db;
    mark_pending_with_usage = mark_settlement_pending_with_usage;
    fail = fail;
  }

  -- The reservation is settled, or awaits its settlement.
  abbrev pub IsBooked : ℕ → Database → Type 0
  IsBooked id db = Found id ReservationStatus.settled db ⊎ Found id ReservationStatus.pending db

  pub billing_service-IsLawful : IsLawful billing_service IsBooked
  unfolding billing_service mark_settlement_pending_with_usage
  billing_service-IsLawful = record {
    settled = λ id usage db db' c. inl (settle-Found id usage db c);
    marked = λ id reason db db' c. mark-Found id reason none db c;
    marked_with_usage = λ id reason usage db db' c.
        let (_, c1) =
          guard-then
            (not (str_eq (trim_space reason) "")
              && leb (len (trim_space reason)) 1024
              && valid_usage_source usage.source)
            _ _ c in
        let (metrics, _, c2) =
          >>=-eq-ok
            (or_invalid (normalize_metered_usage (usage_metrics_for (normalize_usage usage)))) _
            c1 in
        mark-Found id (trim_space reason) (reported metrics) db c2;
  }
