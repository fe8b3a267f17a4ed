-- ===== src/Payments/Rows.antt =====
-- Rows of `payment_orders` under their identifiers.
use Prim.Native.String.{String}
use model_bridge.Base.{
  ◌≡◌, refl, [], ◌∷◌, Bool, true, false, Option, none, some, arith, Bool-cases, inl, inr,
}
use model_bridge.Base.Texts.{Map, lookup, insert, lookup-insert, str_eq, eq_iff}
use model_bridge.Ledger.Retries.{str_eq_refl}
use model_bridge.Payments.Orders.{find_by}

-- The primary key: no identifier stands in two rows.
abbrev pub Keyed {ℓ} : {V : Type ℓ} → Map V → Type ℓ
Keyed [] = Unit
Keyed ((id, row) ∷ rest) = (lookup id rest ≡ none) × Keyed rest

module _ {ℓ} {V : Type ℓ} where
  pub insert-Keyed : (id : String) (row : V) (m : Map V) → Keyed m → Keyed (insert id row m)
  insert-Keyed id row [] h = (refl, tt)
  insert-Keyed id row ((j, o) ∷ m) h = elim (Bool-cases (str_eq j id)) [
    | inl same ↦ rw same (rw (← (eq_iff j id).0 same) h.0, h.1)
    | inr other ↦
        let away : str_eq id j ≡ false = ground (arith, other, eq_iff j id, eq_iff id j) in
        rw other (rw (lookup-insert id j row m, away) h.0, insert-Keyed id row m h.1)
  ]

  pub lookup-insert_self :
      (id : String) (row : V) (m : Map V) → lookup id (insert id row m) ≡ some row
  lookup-insert_self id row m = rw (lookup-insert id id row m, str_eq_refl id) refl

  -- A row that a query finds is the row under its identifier.
  pub find_by-lookup :
      (test : V → Bool) (m : Map V) {id : String} {row : V}
      → Keyed m
      → find_by test m ≡ some (id, row)
      → lookup id m ≡ some row
  unfolding find_by
  find_by-lookup test [] k h = cc
  find_by-lookup test ((j, o) ∷ m) {id} {row} k h = elim (Bool-cases (test o)) [
    | inl here ↦
        let found : ◌≡◌ {A = Option (String × V)} (some (j, o)) (some (id, row)) = rw here at h in
        let same : j ≡ id = cc found in
        let value : o ≡ row = cc found in rw (same, value, str_eq_refl id) refl
    | inr more ↦
        let rest = find_by-lookup test m {id = id} {row = row} k.1 (rw more at h) in
        ground (arith, rest, k.0, eq_iff j id)
  ]

  -- A row that a query finds passes its test.
  pub find_by-test :
      (test : V → Bool) (m : Map V) {id : String} {row : V}
      → find_by test m ≡ some (id, row)
      → test row ≡ true
  unfolding find_by
  find_by-test test [] h = cc
  find_by-test test ((j, o) ∷ m) {id} {row} h = elim (Bool-cases (test o)) [
    | inl here ↦
        let found : ◌≡◌ {A = Option (String × V)} (some (j, o)) (some (id, row)) = rw here at h in
        let value : o ≡ row = cc found in rw (← value) here
    | inr more ↦ find_by-test test m {id = id} {row = row} (rw more at h)
  ]

  -- A query that found a row finds what is written over it, while it still fits.
  pub find_by-insert :
      (test : V → Bool) (m : Map V) (changed : V) {id : String} {row : V}
      → lookup id m ≡ some row
      → find_by test m ≡ some (id, row)
      → test changed ≡ true
      → find_by test (insert id changed m) ≡ some (id, changed)
  unfolding find_by
  find_by-insert test [] changed l h fits = cc
  find_by-insert test ((j, o) ∷ m) changed {id} {row} l h fits = elim (Bool-cases (str_eq j id)) [
    | inl same ↦ rw (same, find_by, fits) refl
    | inr other ↦ elim (Bool-cases (test o)) [
      | inl here ↦
          let found : ◌≡◌ {A = Option (String × V)} (some (j, o)) (some (id, row)) = rw here at h in
          let equal : j ≡ id = cc found in
          let no : str_eq id id ≡ false = rw equal at other in cc (no, str_eq_refl id)
      | inr more ↦
          rw (other, find_by, more)
            (find_by-insert test m changed {id = id} {row = row} (rw other at l) (rw more at h)
              fits)
    ]
  ]
