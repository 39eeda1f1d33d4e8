-- ===== src/Wire/Stream.antt =====
-- `salticidae::DataStream` as the code uses it: bytes are appended at one end and read at the other.
-- The operators for the machine integers and for `uint256_t` are code of a submodule, and so a
-- parameter; so are `htole` and `letoh`.
use kauri_public.Base.{
  ℕ, zero, suc, ◌^◌, ◌<◌, ◌≡◌, refl, Option, none, some, List, [], ◌∷◌, ◌++◌, length, All,
}
use mathlib.Core.List.{append_assoc}

-- A failed read throws `std::ios_base::failure`: it is `none`.
abbrev pub Get : Type 0 → Type 0
Get A = List ℕ → Option (A × List ℕ)

pub record Codec (A : Type 0) : Type 0 where
  pub put : A → List ℕ
  pub get : Get A

-- What was put is what is read, and the rest of the stream stays.
abbrev pub RoundTrips : {A : Type 0} → Codec A → (A → Type 0) → Type 0
RoundTrips {A} c P = (a : A) (rest : List ℕ) → P a → c.get (c.put a ++ rest) ≡ some (a, rest)

-- A codec that throws for some values, where `put` is `none`; what is read of what was put is `norm a`.
pub record PartialCodec (A : Type 0) : Type 0 where
  pub put : A → Option (List ℕ)
  pub get : Get A

abbrev pub Reads : {A : Type 0} → PartialCodec A → (A → Type 0) → (A → A) → Type 0
Reads {A} c P norm =
    (a : A)
    → P a
    → (out : List ℕ) × (c.put a ≡ some out)
      × ((rest : List ℕ) → c.get (out ++ rest) ≡ some (norm a, rest))

module _ {A B : Type 0} where
  abbrev pub pass : Option (A × List ℕ) → (A → Get B) → Option (B × List ℕ)
  pass none f = none
  pass (some (a, s)) f = f a s

  infixl 5 ◌>>=◌
  abbrev pub ◌>>=◌ : Get A → (A → Get B) → Get B
  ◌>>=◌ m f s = pass (m s) f

module _ {A : Type 0} where
  abbrev pub done : A → Get A
  done a s = some (a, s)

pub record Wire : Type 0 where
  pub u8 : Codec ℕ
  pub u16 : Codec ℕ
  pub u32 : Codec ℕ
  pub hash : Codec ℕ
  pub htole : ℕ → ℕ
  pub letoh : ℕ → ℕ

abbrev pub Below : ℕ → ℕ → Type 0
Below k n = n < 2 ^ k

pub record WireLaws (W : Wire) : Type 0 where
  pub u8-get : RoundTrips W.u8 (Below 8)
  pub u16-get : RoundTrips W.u16 (Below 16)
  pub u32-get : RoundTrips W.u32 (Below 32)
  pub hash-get : RoundTrips W.hash (Below 256)
  pub letoh-htole : (n : ℕ) → n < 2 ^ 32 → W.letoh (W.htole n) ≡ n
  pub htole_small : (n : ℕ) → n < 2 ^ 32 → W.htole n < 2 ^ 32

-- for (const auto &x: xs) s << x
unfoldable pub put_all : {A : Type 0} → Codec A → List A → List ℕ
put_all c [] = []
put_all c (x ∷ xs) = c.put x ++ put_all c xs

-- xs.resize(n); for (auto &x: xs) s >> x
unfoldable pub get_all : {A : Type 0} → Codec A → ℕ → Get (List A)
get_all c zero = done []
get_all c (suc n) = do x ← c.get; xs ← get_all c n; done (x ∷ xs)

-- get_data_inplace(n)
unfoldable pub get_bytes : ℕ → Get (List ℕ)
get_bytes zero s = some ([], s)
get_bytes (suc n) [] = none
get_bytes (suc n) (x ∷ s) = pass (get_bytes n s) (λ xs. done (x ∷ xs))

pub get_all-put_all :
    {A : Type 0} (c : Codec A) (P : A → Type 0)
    → RoundTrips c P
    → (xs : List A) (rest : List ℕ) → All P xs
    → get_all c (length xs) (put_all c xs ++ rest) ≡ some (xs, rest)
unfolding put_all get_all
get_all-put_all c P law [] rest h = refl
get_all-put_all c P law (x ∷ xs) rest h =
    rw (append_assoc (c.put x) (put_all c xs) rest, law x (put_all c xs ++ rest) h.0)
      (rw (get_all-put_all c P law xs rest h.1) refl)

pub get_bytes-append : (xs rest : List ℕ) → get_bytes (length xs) (xs ++ rest) ≡ some (xs, rest)
unfolding get_bytes
get_bytes-append [] rest = refl
get_bytes-append (x ∷ xs) rest = rw (get_bytes-append xs rest) refl
