-- ===== src/Base/Rising.antt =====
-- Strictly rising lists of numbers above one bound and not above another.
use kauri_public.Base.{ℕ, ◌≤◌, ◌<◌, List, [], ◌∷◌, ◌++◌, arith}

abbrev pub IsRising : ℕ → ℕ → List ℕ → Type 0
IsRising lo hi [] = lo ≤ hi
IsRising lo hi (x ∷ xs) = (lo < x) × IsRising x hi xs

pub IsRising-append :
    (lo mid hi : ℕ) (xs ys : List ℕ)
    → IsRising lo mid xs
    → IsRising mid hi ys
    → IsRising lo hi (xs ++ ys)
IsRising-append lo mid hi [] [] h k = omega arith
IsRising-append lo mid hi [] (y ∷ ys) h k = (omega arith, k.1)
IsRising-append lo mid hi (x ∷ xs) ys h k = (h.0, IsRising-append x mid hi xs ys h.1 k)

pub IsRising-le : (lo hi : ℕ) (xs : List ℕ) → IsRising lo hi xs → lo ≤ hi
IsRising-le lo hi [] h = h
IsRising-le lo hi (x ∷ xs) h = let rest = IsRising-le x hi xs h.1 in omega arith

pub IsRising-weaken :
    (lo hi hi' : ℕ) (xs : List ℕ) → hi ≤ hi' → IsRising lo hi xs → IsRising lo hi' xs
IsRising-weaken lo hi hi' [] e h = omega arith
IsRising-weaken lo hi hi' (x ∷ xs) e h = (h.0, IsRising-weaken x hi hi' xs e h.1)
