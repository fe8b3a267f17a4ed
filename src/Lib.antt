-- ===== src/Lib.antt =====
-- ModelBridge: the billing core of a gateway for AI models, with its payments, its throttles and
-- the relaying of chat requests.
--
-- A request to a model is paid for in advance. `Reserve` (internal/billing/service.go) prices an
-- estimate, checks the spend limit of the API token and moves the amount from the tenant's prepaid
-- balance to a reservation. After the answer `Settle` prices the reported usage, replaces the hold
-- by the charge and posts a double-entry transaction; `Fail` and `ExpireReservations` give the
-- hold back; `MarkSettlementPending` keeps it for an operator. The amounts come from
-- internal/billing/metering.go. The relay (internal/relay) calls these operations: it
-- tries the channels of a model one after the other, and bills the first answer. internal/auth and
-- internal/tokens bound how often a subject may call. A tenant pays in by an order
-- (internal/payments/service.go), which a callback of the payment provider credits once.
--
-- The files:
--   Base        shared names, tables of rows, maps, strings, integers, results with `do`
--   Metering    internal/billing/metering.go: Defs (types), Usage (normalizeMeteredUsage), Effective
--               (effectiveQuantity), Tiers (tieredAmount), Select (selectMeteredComponents), Charge
--               (calculateMeteredChargeForTier and the factors), Modes (metering modes, prices); the
--               proofs are in Disjoint, Repeated, Effective, Graduated, Billed and Ancestors
--   Ledger      internal/billing/service.go: State (the rows), Quote and Reserve (Reserve), Posting,
--               Reported and Settle (Settle, SettleByModelRequestID, CanSettleWithoutUsage), Release
--               (releaseReservation, Fail, ExpireReservations, ExtendReservation,
--               markSettlementPending), Rebind (RebindReservationChannel) and Credit (Credit,
--               EnsurePrepaidAccount). Statuses, Admission, Settlement and Credited say
--               what a commit has gone through, Lifecycle is the graph of a reservation's statuses,
--               Touched, Commits and Rebound say what a commit may touch, Known that keys of requests
--               stay, and Runs has the step relation and its runs. Limits, Effects, Moves, Retries, Expiry,
--               Expired and Factors have the properties of single
--               operations, Keys and Duplicates what a repeated credit finds, Reconcile has the
--               books, and Scenario and Rebinding the rows of the examples
--   Access      internal/auth/request_throttle.go, the login throttle of internal/auth/login.go, and
--               AcquireToken of internal/tokens/issuer.go
--   Relay       internal/relay: Channels (pickWeightedChannel), Errors (retryableUpstreamError and
--               its like), Health (recordChannelFailure, recordChannelSuccess), Reports (ChatUsage,
--               billingBreakdown, meteredUsage), Biller (what is asked of the billing service),
--               Answers (completeRelayBilling and its neighbours in internal/relay/advanced.go),
--               Attempts (the body of the loop of ChatCompletions), Chat (ChatCompletions) and Books
--               (the ledger as the biller). Choice and Found are about the choice, Parts about the
--               reports, Kept, Paid, Untracked and Admitted about the billing, Tries and Ends about
--               the loop.
--               Stream has StreamChatCompletions: Events (openAndReadChatStream, mergeChatUsage),
--               Ends (the end or the failure of one stream), Loop (the attempts and the channels);
--               Read, Sourced and Source are about what is sent, Fine and Billed about the billing.
--               Embeddings has CreateEmbeddings, with its billing in Billed. Scenario has the channels
--               and the biller of the examples
--   Payments    internal/payments/service.go: Amounts, Rates, Orders, Packages, Offers, Create
--               (CreateOrder), Rows, Callback (settleCallback) and Operations (HandleWebhook,
--               CapturePayPal, sequences of calls). Exact, Settled, Guarded, Repeats, Again, Calls,
--               Runs, Lives and Backed have the proofs
--
-- State. The database is a record of tables, and an operation returns an error or its result with
-- the database that its transaction commits; row locks make the transactions atomic, so that an
-- execution is a sequence of commits (`Step`, `Reach`: those of the operations that write accounts,
-- reservations or the ledger). System accounts are a map from their codes
-- to balances. The store of the payments is a table of orders beside that database, whose
-- transactions are apart. The relay keeps the variables of its loop in a record with the store of
-- its biller (`Progress`), and an attempt continues, stops or returns. The identifiers of new rows
-- are arguments; an identifier that is taken violates a constraint. A price is kept in the row of
-- the request, where the source keeps the identifier and the snapshot of a row that does not
-- change.
--
-- Numbers. A decimal string is what its trimmed text denotes: nothing, malformed, or a whole
-- number of 10^-30 (`validMeteredDecimal` lets no finer one through). Sums and products are exact,
-- as with big.Rat; `rat_decimal` rounds where the source prints. A quote is a whole number of
-- 10^-36, and `stored` rounds it as a `numeric(40, 30)` column does. Balances are integers, other
-- amounts are natural numbers. The number of integer digits that a column holds is not bounded
-- here. Reported token counts are integers, and sums and differences of them wrap around as those of
-- `int64` do (Base.Int64). Lengths of texts count bytes, as Go's do; ToLower
-- and TrimSpace know ASCII (and the spaces of Latin-1).
--
-- Fuel. The recursion of `componentForMeter` climbs from a meter to its parents;
-- `component_within` has three levels for it, and says whether they were enough; a meter has at most
-- two ancestors. A round of
-- expiry takes at most a hundred rows, as its query says; the query's order by time is not
-- modelled. The loop of ChatCompletions has one step more than there are candidates, and each
-- attempt notes a new channel; so have the loops of StreamChatCompletions, where a channel has two
-- attempts, and CreateEmbeddings. All other loops are recursions on their lists.
--
-- Parameters, for what the code asks of others: the rows that the queries of prices, models and
-- tenants select (`Catalog`), the digest of a throttled subject, the random numbers of math/rand,
-- which a property that needs it assumes to be below their bounds, the payment providers with
-- their signatures, the providers of models and the credentials (`Line`), the router and its
-- limits (`Gate`), and for the relay the billing service (`Biller`), with the law that a
-- settlement or a mark that succeeds leaves the reservation settled or pending; Books shows it of
-- the ledger. An error of the relay that wraps another is one constructor, so that a status goes
-- with `ErrUpstream` only.
--
-- Not modelled: failures of the database, usage events and breakdowns in JSON, free requests and
-- their rebinding in the ledger (for the relay they are operations of its biller), the publication of
-- prices, probes and media of the relay and its request metrics, the protocols of the providers,
-- the administration of payment configurations, HTTP, and the services that store and list rows.
pub mod Base
pub mod Metering
pub mod Ledger
pub mod Access
pub mod Relay
pub mod Payments
