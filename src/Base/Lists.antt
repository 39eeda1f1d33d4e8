-- ===== src/Base/Lists.antt =====
-- Lists measured and searched by native numbers.
use Prim.Native.Nat.{ℕ, zero, suc, ◌+◌}
use mathlib.Core.Path.{◌≡◌, refl, subst}
use mathlib.Core.Bool.{Bool, true, false, ◌||◌}
use mathlib.Core.List.{List, [], ◌∷◌, ◌++◌, reverse, reverse-cons}
use mathlib.Core.Option.{Option, none, some}
use native.Mathlib.Omega.{arith}
use mathlib.Core.Logic.{inl, inr}
use kauri_public.Base.Tests.{◌==◌, ==_iff, Bool-cases, if◌then◌else◌}

module _ {ℓ} {A : Type ℓ} where
  abbrev pub length : List A → ℕ
  length [] = 0
  length (x ∷ xs) = suc (length xs)

  abbrev pub get_elem? : List A → ℕ → Option A
  get_elem? [] i = none
  get_elem? (x ∷ xs) zero = some x
  get_elem? (x ∷ xs) (suc i) = get_elem? xs i

  abbrev pub head? : List A → Option A
  head? [] = none
  head? (x ∷ xs) = some x

  -- `back()`
  abbrev pub last? : List A → Option A
  last? [] = none
  last? (x ∷ []) = some x
  last? (x ∷ y ∷ ys) = last? (y ∷ ys)

  pub length-append : (xs ys : List A) → length (xs ++ ys) ≡ length xs + length ys
  length-append [] ys = omega arith
  length-append (x ∷ xs) ys = omega (arith, length-append xs ys)

  abbrev pub All {κ} : (A → Type κ) → List A → Type κ
  All P [] = Unit
  All P (x ∷ xs) = P x × All P xs

  pub All-append {κ} : (P : A → Type κ) (xs ys : List A) → All P xs → All P ys → All P (xs ++ ys)
  All-append P [] ys hx hy = hy
  All-append P (x ∷ xs) ys hx hy = (hx.0, All-append P xs ys hx.1 hy)

  pub All-reverse {κ} : (P : A → Type κ) (xs : List A) → All P xs → All P (reverse xs)
  All-reverse P [] h = h
  All-reverse P (x ∷ xs) h =
      rw reverse-cons (All-append P (reverse xs) (x ∷ []) (All-reverse P xs h.1) (h.0, tt))

-- `std::find(l.begin(), l.end(), a) != l.end()`
unfoldable pub contains : ℕ → List ℕ → Bool
contains a [] = false
contains a (x ∷ xs) = x == a || contains a xs

-- `l.erase(std::find(l.begin(), l.end(), a))`, where `a` is in the list
unfoldable pub remove_first : ℕ → List ℕ → List ℕ
remove_first a [] = []
remove_first a (x ∷ xs) = if x == a then xs else x ∷ remove_first a xs

-- `insert` and `erase` of a set without repetition
unfoldable pub set_insert : ℕ → List ℕ → List ℕ
set_insert a xs = if contains a xs then xs else xs ++ a ∷ []

unfoldable pub set_erase : ℕ → List ℕ → List ℕ
set_erase a [] = []
set_erase a (x ∷ xs) = let rest = set_erase a xs in if x == a then rest else x ∷ rest

pub contains-append :
    (a : ℕ) (xs ys : List ℕ) → contains a (xs ++ ys) ≡ (contains a xs || contains a ys)
unfolding contains
contains-append a [] ys = refl
contains-append a (x ∷ xs) ys = ground (arith, contains-append a xs ys)

pub contains-set_insert :
    (a b : ℕ) (xs : List ℕ) → contains a (set_insert b xs) ≡ (b == a || contains a xs)
unfolding set_insert contains
contains-set_insert a b xs = ground (arith, contains-append a xs (b ∷ []))

pub contains-set_erase :
    (a b : ℕ) (xs : List ℕ)
    → contains a (set_erase b xs) ≡ (if b == a then false else contains a xs)
unfolding set_erase contains
contains-set_erase a b [] = ground arith
contains-set_erase a b (x ∷ xs) = ground (arith, contains-set_erase a b xs)

pub length-remove_first :
    (a : ℕ) (xs : List ℕ) → contains a xs ≡ true → length (remove_first a xs) + 1 ≡ length xs
unfolding contains remove_first
length-remove_first a [] h = absurd (ground arith)
length-remove_first a (x ∷ xs) h = ground (arith, length-remove_first a xs)

pub All-remove_first {κ} :
    (P : ℕ → Type κ) (a : ℕ) (xs : List ℕ) → All P xs → All P (remove_first a xs)
unfolding remove_first
All-remove_first P a [] h = h
All-remove_first P a (x ∷ xs) h = elim (Bool-cases (x == a)) [
  | inl same ↦ rw same h.1
  | inr other ↦ rw other (h.0, All-remove_first P a xs h.1)
]

pub All-contains {κ} :
    (P : ℕ → Type κ) (a : ℕ) (xs : List ℕ) → All P xs → contains a xs ≡ true → P a
unfolding contains
All-contains P a [] h e = absurd (ground arith)
All-contains P a (x ∷ xs) h e = elim (Bool-cases (x == a)) [
  | inl hit ↦ subst P ((==_iff x a).0 hit) h.0
  | inr miss ↦ All-contains P a xs h.1 (ground arith)
]
