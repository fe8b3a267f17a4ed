-- ===== src/Ledger/Known.antt =====
-- The idempotency keys of `model_requests`, which no transaction of internal/billing/service.go
-- takes away or rewrites.
use Prim.Native.String.{String}
use model_bridge.Base.{
  ℕ, ◌≡◌, refl, [], ◌∷◌, none, some, true, ◌==◌, arith, eqb→eq, Bool-cases, Option-cases, inl, inr,
}
use model_bridge.Base.Texts.{eq_iff}
use model_bridge.Base.Tables.{Table, find, put, find-put}
use model_bridge.Ledger.State.{ModelRequest, Database}
use model_bridge.Ledger.Reserve.{has_key}
use model_bridge.Ledger.Release.{update_request}

-- The row of a request, under a key.
pub record KeyAt (id : ℕ) (key : String) (t : Table ModelRequest) : Type 0 where
  pub row : ModelRequest
  pub row_found : find id t ≡ some row
  pub key_is : row.idempotency_key ≡ key

abbrev pub KeysKept : Table ModelRequest → Table ModelRequest → Type 0
KeysKept t t' = (id : ℕ) (key : String) → KeyAt id key t → KeyAt id key t'

-- A write that leaves the key of the row.
pub put-KeysKept :
    (j : ℕ) (new old : ModelRequest) (t : Table ModelRequest)
    → find j t ≡ some old
    → new.idempotency_key ≡ old.idempotency_key
    → KeysKept t (put j new t)
put-KeysKept j new old t found same id key at = elim (Bool-cases (id == j)) [
  | inl here ↦
      let equal : old ≡ at.row = cc (found, at.row_found, eqb→eq id j here) in
      record {
        row = new;
        row_found = rw (find-put j id new t, here) refl;
        key_is = cc (same, rw equal at same, at.key_is);
      }
  | inr other ↦ record {
    row = at.row;
    row_found = rw (find-put j id new t, other) at.row_found;
    key_is = at.key_is;
  }
]

-- A new row.
pub put_new-KeysKept :
    (j : ℕ) (new : ModelRequest) (t : Table ModelRequest)
    → find j t ≡ none
    → KeysKept t (put j new t)
put_new-KeysKept j new t absent id key at = elim (Bool-cases (id == j)) [
  | inl here ↦ cc (absent, at.row_found, eqb→eq id j here)
  | inr other ↦ record {
    row = at.row;
    row_found = rw (find-put j id new t, other) at.row_found;
    key_is = at.key_is;
  }
]

pub update_request-KeysKept :
    (id : ℕ) (f : ModelRequest → ModelRequest) (db : Database)
    → ((q : ModelRequest) → (f q).idempotency_key ≡ q.idempotency_key)
    → KeysKept db.requests (update_request id f db).requests
update_request-KeysKept id f db same = elim (Option-cases (find id db.requests)) [
  | inl e ↦ rw (e, update_request) (λ j key at. at)
  | inr (q, e) ↦ rw (e, update_request) (put-KeysKept id (f q) q db.requests e (same q))
]

-- A key that some row has is known.
pub KeyAt-has_key :
    (id : ℕ) (key : String) (t : Table ModelRequest) → KeyAt id key t → has_key key t ≡ true
KeyAt-has_key id key [] at = cc at.row_found
KeyAt-has_key id key ((k, q) ∷ t) at = elim (Bool-cases (id == k)) [
  | inl here ↦
      let equal : q ≡ at.row = cc (rw here at at.row_found) in
      rw ((eq_iff q.idempotency_key key).1 (cc (equal, at.key_is))) refl
  | inr other ↦
      let rest =
        KeyAt-has_key id key t
          (record { row = at.row; row_found = rw other at at.row_found; key_is = at.key_is }) in
      ground (arith, rest)
]
