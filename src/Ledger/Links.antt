-- ===== src/Ledger/Links.antt =====
-- The foreign key from `billing_reservations` to `model_requests`, and the two sides of the ledger.
use model_bridge.Base.{
  ℕ, ◌≡◌, List, [], ◌∷◌, some, true, is_some, ◌==◌, arith, All, sum_by, Option-cases, Bool-cases,
  inl, inr,
}
use model_bridge.Base.Tables.{Table, find, put, find-put}
use model_bridge.Ledger.State.{Reservation, ModelRequest, Direction, LedgerLine, Database}
use model_bridge.Ledger.Release.{update_request}

-- Every reservation has the row of its request.
abbrev pub LinkedTo : Table ModelRequest → Table Reservation → Type 0
LinkedTo requests = All (λ (row : ℕ × Reservation). is_some (find row.1.request_id requests) ≡ true)

abbrev pub Linked : Database → Type 0
Linked db = LinkedTo db.requests db.reservations

pub LinkedTo-find :
    (requests : Table ModelRequest) (id : ℕ) (r : Reservation) (t : Table Reservation)
    → find id t ≡ some r
    → LinkedTo requests t
    → is_some (find r.request_id requests) ≡ true
LinkedTo-find requests id r [] e h = cc
LinkedTo-find requests id r ((k, s) ∷ t) e h = elim (Bool-cases (id == k)) [
  | inl same ↦ ground (arith, h.0, same)
  | inr other ↦ LinkedTo-find requests id r t (rw other at e) h.1
]

pub LinkedTo-put :
    (requests : Table ModelRequest) (id : ℕ) (r : Reservation) (t : Table Reservation)
    → is_some (find r.request_id requests) ≡ true
    → LinkedTo requests t
    → LinkedTo requests (put id r t)
LinkedTo-put requests id r [] e h = (e, tt)
LinkedTo-put requests id r ((k, s) ∷ t) e h =
    ground (arith, e, h.0, h.1, LinkedTo-put requests id r t e h.1)

pub put-is_some :
    (id j : ℕ) (q : ModelRequest) (requests : Table ModelRequest)
    → is_some (find j requests) ≡ true
    → is_some (find j (put id q requests)) ≡ true
put-is_some id j q requests h = ground (arith, find-put id j q requests)

pub put-LinkedTo :
    (id : ℕ) (q : ModelRequest) (requests : Table ModelRequest) (t : Table Reservation)
    → LinkedTo requests t
    → LinkedTo (put id q requests) t
put-LinkedTo id q requests [] h = tt
put-LinkedTo id q requests ((k, s) ∷ t) h =
    (put-is_some id s.request_id q requests h.0, put-LinkedTo id q requests t h.1)

pub update_request-Linked :
    (id : ℕ) (f : ModelRequest → ModelRequest) (db : Database)
    → Linked db
    → Linked (update_request id f db)
update_request-Linked id f db h = elim (Option-cases (find id db.requests)) [
  | inl e ↦ rw (e, update_request) h
  | inr (q, e) ↦ rw (e, update_request) (put-LinkedTo id (f q) db.requests db.reservations h)
]

-- The amounts of one side of the whole ledger.
abbrev pub on_side : Direction → LedgerLine → ℕ
on_side Direction.debit l = elim l.direction [ Direction.debit ↦ l.amount | Direction.credit ↦ 0 ]
on_side Direction.credit l = elim l.direction [ Direction.debit ↦ 0 | Direction.credit ↦ l.amount ]

-- Debits equal credits.
abbrev pub Even : List LedgerLine → Type 0
Even lines = sum_by (on_side Direction.debit) lines ≡ sum_by (on_side Direction.credit) lines
