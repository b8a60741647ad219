-- ===== src/Prelude/Queries.antt =====
-- ORDER BY and LIMIT of a query; rows of equal keys stay in the order of the table.
use Prim.Native.Nat.{ℕ, zero, suc}
use mathlib.Core.Bool.{Bool}
use mathlib.Core.List.{List, [], ◌∷◌}
use crypto_processing_api.Prelude.Tests.{leb, if◌then◌else◌}

module _ {ℓ} {A : Type ℓ} where
  unfoldable pub inserted_by : (A → A → Bool) → A → List A → List A
  inserted_by before x [] = x ∷ []
  inserted_by before x (y ∷ ys) =
      let rest = inserted_by before x ys in if before x y then x ∷ y ∷ ys else y ∷ rest

  unfoldable pub ordered_by : (A → A → Bool) → List A → List A
  unfolding inserted_by
  ordered_by before [] = []
  ordered_by before (x ∷ xs) = inserted_by before x (ordered_by before xs)

  -- .limit(n)
  unfoldable pub limited : ℕ → List A → List A
  limited zero xs = []
  limited (suc n) [] = []
  limited (suc n) (x ∷ xs) = x ∷ limited n xs

  -- .order_by(key), and .order_by(key.desc())
  abbrev pub ascending : (A → ℕ) → A → A → Bool
  ascending key x y = leb (key x) (key y)

  abbrev pub descending : (A → ℕ) → A → A → Bool
  descending key x y = leb (key y) (key x)
