-- ===== src/Base/Maps.antt =====
-- `std::unordered_map` and `std::map` with numbers for keys, as association lists. The order of
-- the entries is never observed by the program.
use Prim.Native.Nat.{ℕ}
use mathlib.Core.Path.{◌≡◌}
use mathlib.Core.List.{List, [], ◌∷◌}
use mathlib.Core.Option.{Option, none, some}
use native.Mathlib.Omega.{arith}
use kauri_public.Base.Tests.{◌==◌, if◌then◌else◌}

module _ {ℓ} {V : Type ℓ} where
  -- m.find(k)
  unfoldable pub find : ℕ → List (ℕ × V) → Option V
  find k [] = none
  find k ((j, v) ∷ m) = if j == k then some v else find k m

  -- m.insert({k, v}): an entry that is there stays
  unfoldable pub insert : ℕ → V → List (ℕ × V) → List (ℕ × V)
  insert k v [] = (k, v) ∷ []
  insert k v ((j, w) ∷ m) = if j == k then (j, w) ∷ m else (j, w) ∷ insert k v m

  -- m[k] = v
  unfoldable pub put : ℕ → V → List (ℕ × V) → List (ℕ × V)
  put k v [] = (k, v) ∷ []
  put k v ((j, w) ∷ m) = if j == k then (k, v) ∷ m else (j, w) ∷ put k v m

  -- m.erase(k)
  unfoldable pub erase : ℕ → List (ℕ × V) → List (ℕ × V)
  erase k [] = []
  erase k ((j, v) ∷ m) = let rest = erase k m in if j == k then rest else (j, v) ∷ rest

  abbrev pub or_else : Option V → V → Option V
  or_else none v = some v
  or_else (some w) v = some w

  pub find-insert :
      (k j : ℕ) (v : V) (m : List (ℕ × V))
      → find j (insert k v m) ≡ (if k == j then or_else (find k m) v else find j m)
  unfolding find insert
  find-insert k j v [] = ground arith
  find-insert k j v ((i, w) ∷ m) = ground (arith, find-insert k j v m)

  pub find-put :
      (k j : ℕ) (v : V) (m : List (ℕ × V))
      → find j (put k v m) ≡ (if k == j then some v else find j m)
  unfolding find put
  find-put k j v [] = ground arith
  find-put k j v ((i, w) ∷ m) = ground (arith, find-put k j v m)

  pub find-erase :
      (k j : ℕ) (m : List (ℕ × V)) → find j (erase k m) ≡ (if k == j then none else find j m)
  unfolding find erase
  find-erase k j [] = ground arith
  find-erase k j ((i, w) ∷ m) = ground (arith, find-erase k j m)
