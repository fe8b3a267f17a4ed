-- ===== src/Base/Tables.antt =====
-- Database tables keyed by an identifier, with the laws of a write.
use Prim.Native.Nat.{ℕ, suc, ◌+◌, ◌≤◌}
use mathlib.Core.Path.{◌≡◌, refl}
use mathlib.Core.Option.{Option, none, some}
use mathlib.Core.List.{List, [], ◌∷◌}
use native.Mathlib.Omega.{arith}
use model_bridge.Base.Tests.{◌==◌, if◌then◌else◌}

abbrev pub Table {ℓ} : Type ℓ → Type ℓ
Table V = List (ℕ × V)

module _ {ℓ} {V : Type ℓ} where
  abbrev pub find : ℕ → Table V → Option V
  find k [] = none
  find k ((j, v) ∷ t) = if k == j then some v else find k t

  -- An insert, or an update of the row that is there.
  abbrev pub put : ℕ → V → Table V → Table V
  put k v [] = (k, v) ∷ []
  put k v ((j, w) ∷ t) = if k == j then (k, v) ∷ t else (j, w) ∷ put k v t

  pub find-put :
      (k j : ℕ) (v : V) (t : Table V) → find j (put k v t) ≡ (if j == k then some v else find j t)
  find-put k j v [] = refl
  find-put k j v ((i, w) ∷ t) = ground (arith, find-put k j v t)

  -- The sum of a measure over the rows.
  abbrev pub total : (V → ℕ) → Table V → ℕ
  total f [] = 0
  total f ((j, v) ∷ t) = f v + total f t

  pub total-put :
      (f : V → ℕ) (k : ℕ) (v old : V) (t : Table V)
      → find k t ≡ some old
      → total f (put k v t) + f old ≡ total f t + f v
  total-put f k v old [] e = cc
  total-put f k v old ((j, w) ∷ t) e = ground (arith, total-put f k v old t)

  pub total-put_new :
      (f : V → ℕ) (k : ℕ) (v : V) (t : Table V)
      → find k t ≡ none
      → total f (put k v t) ≡ total f t + f v
  total-put_new f k v [] e = omega arith
  total-put_new f k v ((j, w) ∷ t) e = ground (arith, total-put_new f k v t)

  -- A row counts in the sum.
  pub le-total : (f : V → ℕ) (k : ℕ) (v : V) (t : Table V) → find k t ≡ some v → f v ≤ total f t
  le-total f k v [] e = cc
  le-total f k v ((j, w) ∷ t) e = ground (arith, le-total f k v t)

-- No identifier stands in two rows.
abbrev pub UniqueKeys {ℓ} : {V : Type ℓ} → Table V → Type ℓ
UniqueKeys [] = Unit
UniqueKeys ((k, v) ∷ t) = (find k t ≡ none) × UniqueKeys t

module _ {ℓ} {V : Type ℓ} where
  abbrev pub rows : Table V → ℕ
  rows [] = 0
  rows (e ∷ t) = suc (rows t)

  pub put-UniqueKeys : (k : ℕ) (v : V) (t : Table V) → UniqueKeys t → UniqueKeys (put k v t)
  put-UniqueKeys k v [] u = (refl, tt)
  put-UniqueKeys k v ((j, w) ∷ t) u = ground (arith, put-UniqueKeys k v t u.1, find-put k j v t)

  pub rows-put : (k : ℕ) (v old : V) (t : Table V) → find k t ≡ some old → rows (put k v t) ≡ rows t
  rows-put k v old [] e = cc
  rows-put k v old ((j, w) ∷ t) e = ground (arith, rows-put k v old t)

  pub rows-put_new :
      (k : ℕ) (v : V) (t : Table V) → find k t ≡ none → rows (put k v t) ≡ suc (rows t)
  rows-put_new k v [] e = refl
  rows-put_new k v ((j, w) ∷ t) e = ground (arith, rows-put_new k v t)
