-- ===== src/Base/Exec.antt =====
-- Methods that change an object and may throw. What was written before a throw stays written, so
-- the state is returned beside the error too.
use mathlib.Core.Path.{◌≡◌, refl, ap}
use mathlib.Core.Option.{Option, none, some}

-- What the code throws, and what it leaves undefined.
pub data Error : Type 0 where
  -- `std::runtime_error`, by its text
  not_delivered not_fetched safety_breached empty_parents not_higher invalid_signature : Error
  -- `HotStuffError`
  unknown_replica unreachable_line : Error
  -- `std::invalid_argument`
  mismatched_cert : Error
  -- a null pointer is followed, an element out of range is read, or an `assert` fails
  undefined : Error
  -- the fuel of a loop has run out
  diverged : Error

pub data Result {ℓ} (A : Type ℓ) : Type ℓ where
  ok : A → Result A
  err : Error → Result A

abbrev pub Exec {ℓ} : Type ℓ → Type ℓ → Type ℓ
Exec S A = S → Result A × S

module _ {ℓ} {S A : Type ℓ} where
  abbrev pub pure : A → Exec S A
  pure a s = (ok a, s)

  abbrev pub raise : Error → Exec S A
  raise e s = (err e, s)

  abbrev pub lift : Result A → Exec S A
  lift r s = (r, s)

  -- a pointer that must not be null, an iterator that must not be the end
  abbrev pub need : Option A → Error → Exec S A
  need none e = raise e
  need (some a) e = pure a

module _ {ℓ} {S : Type ℓ} where
  abbrev pub modify : (S → S) → Exec S (Unit {ℓ})
  modify f s = (ok tt, f s)

module _ {ℓ} {S A B : Type ℓ} where
  abbrev pub continue : Result A × S → (A → Exec S B) → Result B × S
  continue (ok a, s) f = f a s
  continue (err e, s) f = (err e, s)

  infixl 5 ◌>>=◌ ◌>>◌
  abbrev pub ◌>>=◌ : Exec S A → (A → Exec S B) → Exec S B
  ◌>>=◌ m f s = continue (m s) f

  abbrev pub ◌>>◌ : Exec S A → Exec S B → Exec S B
  m >> n = m >>= λ _. n

-- What holds of the state after an action, whether it returned or threw.
module _ {ℓ κ} {S A B : Type ℓ} (P : S → Type κ) where
  pub bind-keeps :
      (m : Exec S A) (f : A → Exec S B) (s : S)
      → P (m s).1
      → ((a : A) (t : S) → P t → P (f a t).1)
      → P ((m >>= f) s).1
  bind-keeps m f s h k = go (m s) h
    where
      go : (r : Result A × S) → P r.1 → P (continue r f).1
      go (ok a, t) h = k a t h
      go (err e, t) h = h

-- The steps of an action that returned.
module _ {ℓ} {S A B : Type ℓ} where
  pub bind-eq-ok :
      (m : Exec S A) (f : A → Exec S B) (s : S) {b : B} {t : S}
      → (m >>= f) s ≡ (ok b, t)
      → (a : A) × (u : S) × (m s ≡ (ok a, u)) × (f a u ≡ (ok b, t))
  bind-eq-ok m f s {b} {t} h = go (m s) refl h
    where
      go :
          (r : Result A × S)
          → m s ≡ r
          → continue r f ≡ (ok b, t)
          → (a : A) × (u : S) × (m s ≡ (ok a, u)) × (f a u ≡ (ok b, t))
      go (ok a, u) e k = (a, u, e, k)
      go (err x, u) e k = absurd (clash (ap (λ r. r.0) k))
        where
          clash : ◌≡◌ {A = Result B} (err x) (ok b) → ⊥
          clash e' = cc

-- What holds after a sequence, from what holds after its first action.
module _ {ℓ κ} {S A B : Type ℓ} (P : Result B × S → Type κ) where
  pub bind-rule :
      (m : Exec S A) (f : A → Exec S B) (s : S)
      → ((e : Error) (t : S) → m s ≡ (err e, t) → P (err e, t))
      → ((a : A) (t : S) → m s ≡ (ok a, t) → P (f a t))
      → P ((m >>= f) s)
  bind-rule m f s failed went = go (m s) refl
    where
      go : (r : Result A × S) → m s ≡ r → P (continue r f)
      go (ok a, t) e = went a t e
      go (err x, t) e = failed x t e
