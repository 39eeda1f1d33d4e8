-- ===== src/Pool/Queues.antt =====
-- Tasks counted in the queues, in the hands of the threads, and in the map of promises.
use kauri_public.Base.{
  ℕ, zero, suc, ◌+◌, ◌≡◌, refl, ap, subst, inl, inr, Option, none, some, List, [], ◌∷◌, ◌++◌, arith,
  get_elem?, is_some, ◌==◌, ==_iff, Bool-cases, some_injective, if◌then◌else◌,
}
use kauri_public.Base.Maps
use kauri_public.Pool.{Worker, idle, looping, holding, kept_first, try_dequeue, set_worker}

unfoldable pub occurrences : ℕ → List ℕ → ℕ
occurrences k [] = 0
occurrences k (x ∷ xs) = (if x == k then 1 else 0) + occurrences k xs

abbrev pub load : ℕ → Worker → ℕ
load k idle = 0
load k (looping cnt) = 0
load k (holding cnt task) = if task == k then 1 else 0

unfoldable pub held : ℕ → List Worker → ℕ
held k [] = 0
held k (x ∷ xs) = load k x + held k xs

pub occurrences-append :
    (k : ℕ) (xs ys : List ℕ) → occurrences k (xs ++ ys) ≡ occurrences k xs + occurrences k ys
unfolding occurrences
occurrences-append k [] ys = omega arith
occurrences-append k (x ∷ xs) ys = omega (arith, occurrences-append k xs ys)

pub occurrences-snoc :
    (k x : ℕ) (xs : List ℕ)
    → occurrences k (xs ++ x ∷ []) ≡ occurrences k xs + (if x == k then 1 else 0)
unfolding occurrences
occurrences-snoc k x xs = omega (arith, occurrences-append k xs (x ∷ []))

pub occurrences-try_dequeue :
    (k i t : ℕ) (xs ys : List ℕ)
    → try_dequeue i xs ≡ some (t, ys)
    → occurrences k xs ≡ (if t == k then 1 else 0) + occurrences k ys
unfolding occurrences try_dequeue
occurrences-try_dequeue k i t [] ys h = absurd (ground arith)
occurrences-try_dequeue k zero t (x ∷ xs) ys h = ground arith
occurrences-try_dequeue k (suc i) t (x ∷ xs) ys h =
    go (λ z zs. occurrences-try_dequeue k i z xs zs) (try_dequeue i xs) refl h
  where
    go :
        ((z : ℕ) (zs : List ℕ)
          → try_dequeue i xs ≡ some (z, zs)
          → occurrences k xs ≡ (if z == k then 1 else 0) + occurrences k zs)
        → (r : Option (ℕ × List ℕ)) → try_dequeue i xs ≡ r
        → kept_first x r ≡ some (t, ys)
        → occurrences k (x ∷ xs) ≡ (if t == k then 1 else 0) + occurrences k ys
    go ih none e q = absurd (ground arith)
    go ih (some (z, zs)) e q = ground (arith, ih z zs e)

pub held-set_worker :
    (k w : ℕ) (v x : Worker) (ws : List Worker)
    → get_elem? ws w ≡ some x
    → held k (set_worker ws w v) + load k x ≡ held k ws + load k v
unfolding held set_worker
held-set_worker k w v x [] h = absurd (ground arith)
held-set_worker k zero v x (y ∷ ws) h = omega (arith, ap (load k) (some_injective y x h))
held-set_worker k (suc w) v x (y ∷ ws) h = omega (arith, held-set_worker k w v x ws h)

-- How many entries of the map have the promise.
module _ {A : Type 0} where
  unfoldable pub waits : ℕ → List (ℕ × (A × ℕ)) → ℕ
  waits p [] = 0
  waits p ((k, (a, q)) ∷ m) = (if q == p then 1 else 0) + waits p m

  abbrev pub owned : ℕ → List (ℕ × (A × ℕ)) → ℕ
  owned k m = if is_some (Maps.find k m) then 1 else 0

  -- Each address stands in the map once.
  abbrev pub HasKeysOnce : List (ℕ × (A × ℕ)) → Type 0
  HasKeysOnce [] = Unit
  HasKeysOnce ((k, v) ∷ m) = (Maps.find k m ≡ none) × HasKeysOnce m

  pub waits-insert :
      (p k q : ℕ) (a : A) (m : List (ℕ × (A × ℕ)))
      → Maps.find k m ≡ none
      → waits p (Maps.insert k (a, q) m) ≡ (if q == p then 1 else 0) + waits p m
  unfolding waits Maps.insert Maps.find
  waits-insert p k q a [] h = refl
  waits-insert p k q a ((j, (b, r)) ∷ m) h = ground (arith, waits-insert p k q a m)

  pub insert-HasKeysOnce :
      (k : ℕ) (v : A × ℕ) (m : List (ℕ × (A × ℕ)))
      → Maps.find k m ≡ none
      → HasKeysOnce m
      → HasKeysOnce (Maps.insert k v m)
  unfolding Maps.insert Maps.find
  insert-HasKeysOnce k v [] h u = (refl, tt)
  insert-HasKeysOnce k v ((j, w) ∷ m) h u = elim (Bool-cases (j == k)) [
    | inl hit ↦ absurd (ground arith)
    | inr other ↦
        rw other
          (ground (arith, Maps.find-insert k j v m), insert-HasKeysOnce k v m (ground arith) u.1)
  ]

  erase-none : (k : ℕ) (m : List (ℕ × (A × ℕ))) → Maps.find k m ≡ none → Maps.erase k m ≡ m
  unfolding Maps.erase Maps.find
  erase-none k [] h = refl
  erase-none k ((j, w) ∷ m) h = ground (arith, erase-none k m)

  pub waits-erase :
      (p k q : ℕ) (a : A) (m : List (ℕ × (A × ℕ)))
      → HasKeysOnce m
      → Maps.find k m ≡ some (a, q)
      → waits p m ≡ (if q == p then 1 else 0) + waits p (Maps.erase k m)
  unfolding waits Maps.erase Maps.find
  waits-erase p k q a [] u h = absurd (ground arith)
  waits-erase p k q a ((j, (b, r)) ∷ m) u h = elim (Bool-cases (j == k)) [
    | inl hit ↦
        let once = subst (λ x. Maps.find x m ≡ none) ((==_iff j k).0 hit) u.0 in
        ground (arith, erase-none k m once)
    | inr other ↦ ground (arith, waits-erase p k q a m u.1)
  ]

  pub erase-HasKeysOnce :
      (k : ℕ) (m : List (ℕ × (A × ℕ))) → HasKeysOnce m → HasKeysOnce (Maps.erase k m)
  unfolding Maps.erase
  erase-HasKeysOnce k [] u = tt
  erase-HasKeysOnce k ((j, w) ∷ m) u = elim (Bool-cases (j == k)) [
    | inl hit ↦ rw hit (erase-HasKeysOnce k m u.1)
    | inr other ↦ rw other (ground (arith, Maps.find-erase k j m), erase-HasKeysOnce k m u.1)
  ]
