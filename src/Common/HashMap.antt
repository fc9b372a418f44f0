-- ===== src/Common/HashMap.antt =====
-- A hash map seen through its keys: an association list with one entry for a key. No part of
-- the program depends on the order of the entries where this module is used.
use Prim.Native.Nat.{ℕ, ◌+◌}
use mathlib.Core.Path.{◌≡◌, refl}
use mathlib.Core.Logic.{inl, inr}
use mathlib.Core.List.{List, [], ◌∷◌}
use mathlib.Core.Option.{Option, none, some}
use native.Mathlib.Omega.{arith}
use chorrent.Common.Tests.{==_iff, Eq, ◌==◌, Bool-cases, if◌then◌else◌}

abbrev pub measure {κ} : {V : Type κ} → (V → ℕ) → Option V → ℕ
measure f none = 0
measure f (some v) = f v

module _ {ℓ κ} {K : Type ℓ} ⦃e : Eq K⦄ {V : Type κ} where
  -- `HashMap::get`.
  unfoldable pub get : K → List (K × V) → Option V
  get k [] = none
  get k ((j, v) ∷ m) = if j == k then some v else get k m

  -- `HashMap::remove`, without the value that it returns.
  unfoldable pub remove : K → List (K × V) → List (K × V)
  remove k [] = []
  remove k ((j, v) ∷ m) = let rest = remove k m in if j == k then rest else (j, v) ∷ rest

  -- `HashMap::insert`; also a write through `get_mut`.
  unfoldable pub insert : K → V → List (K × V) → List (K × V)
  unfolding remove
  insert k v m = (k, v) ∷ remove k m

  pub get-remove :
      (k j : K) (m : List (K × V)) → get j (remove k m) ≡ (if k == j then none else get j m)
  unfolding get remove
  get-remove k j [] = ground arith
  get-remove k j ((i, v) ∷ m) = ground (arith, get-remove k j m, ==_iff i k, ==_iff i j, ==_iff k j)

  pub get-insert :
      (k j : K) (v : V) (m : List (K × V))
      → get j (insert k v m) ≡ (if k == j then some v else get j m)
  unfolding get insert
  get-insert k j v m = ground (arith, get-remove k j m)

  -- Every key has one entry.
  unfoldable pub Unique : List (K × V) → Type κ
  Unique [] = Unit
  Unique ((k, v) ∷ m) = (get k m ≡ none) × Unique m

  pub remove-eq_self : (k : K) (m : List (K × V)) → get k m ≡ none → remove k m ≡ m
  unfolding get remove
  remove-eq_self k [] h = refl
  remove-eq_self k ((j, v) ∷ m) h = ground (arith, remove-eq_self k m)

  pub remove-Unique : (k : K) (m : List (K × V)) → Unique m → Unique (remove k m)
  unfolding remove Unique
  remove-Unique k [] u = tt
  remove-Unique k ((j, v) ∷ m) u = elim (Bool-cases (j == k)) [
    | inl hit ↦ rw hit (remove-Unique k m u.1)
    | inr miss ↦ rw miss (ground (arith, get-remove k j m, u.0), remove-Unique k m u.1)
  ]

  pub insert-Unique : (k : K) (v : V) (m : List (K × V)) → Unique m → Unique (insert k v m)
  unfolding insert Unique
  insert-Unique k v m u = (ground (arith, get-remove k k m, ==_iff k k), remove-Unique k m u)

  -- The sum of a measure over the values.
  unfoldable pub tally : (V → ℕ) → List (K × V) → ℕ
  tally f [] = 0
  tally f ((k, v) ∷ m) = f v + tally f m

  pub tally-remove :
      (f : V → ℕ) (k : K) (m : List (K × V))
      → Unique m
      → tally f (remove k m) + measure f (get k m) ≡ tally f m
  unfolding tally get remove Unique
  tally-remove f k [] u = omega arith
  tally-remove f k ((j, v) ∷ m) u =
      ground (arith, tally-remove f k m u.1, remove-eq_self k m, ==_iff j k)

  pub tally-insert :
      (f : V → ℕ) (k : K) (v : V) (m : List (K × V))
      → Unique m
      → tally f (insert k v m) + measure f (get k m) ≡ f v + tally f m
  unfolding tally insert
  tally-insert f k v m u = omega (arith, tally-remove f k m u)
