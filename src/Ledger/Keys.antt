-- ===== src/Ledger/Keys.antt =====
-- The transaction keys of internal/billing/service.go: a commit adds at most one, which is new.
use model_bridge.Base.{◌≡◌, List, [], ◌∷◌, true, false, arith}
use model_bridge.Ledger.State.{TransactionKey}
use model_bridge.Ledger.Posting.{has_transaction}

-- The keys after a commit.
pub data Grown (keys : List TransactionKey) : List TransactionKey → Type 0 where
  same : Grown keys keys
  posted : (key : TransactionKey) → has_transaction key keys ≡ false → Grown keys (key ∷ keys)

-- No key stands in two transactions.
abbrev pub NoRepeat : List TransactionKey → Type 0
NoRepeat [] = Unit
NoRepeat (key ∷ keys) = (has_transaction key keys ≡ false) × NoRepeat keys

pub Grown-NoRepeat :
    {keys later : List TransactionKey} → Grown keys later → NoRepeat keys → NoRepeat later
Grown-NoRepeat Grown.same h = h
Grown-NoRepeat (Grown.posted key new) h = (new, h)

pub Grown-has_transaction :
    {keys later : List TransactionKey} (key : TransactionKey)
    → Grown keys later
    → has_transaction key keys ≡ true
    → has_transaction key later ≡ true
Grown-has_transaction key Grown.same h = h
Grown-has_transaction key (Grown.posted other new) h = ground (arith, h)
