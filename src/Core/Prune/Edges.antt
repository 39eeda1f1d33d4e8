-- ===== src/Core/Prune/Edges.antt =====
-- Sums, pointers that lead to objects in memory, and the stack of `prune`.
use kauri_public.Base.{
  ℕ, zero, suc, ◌+◌, ◌≤◌, ◌<◌, ◌≡◌, refl, sym, subst, inl, inr, Bool, false, ◌||◌, Option, none,
  some, List, [], ◌∷◌, arith, ◌==◌, Bool-cases, length, All, ==_iff,
}
use kauri_public.Core.Prune.{back, pop_back}

-- The sum of the first `n` values.
unfoldable pub sum : (ℕ → ℕ) → ℕ → ℕ
sum f zero = 0
sum f (suc n) = f n + sum f n

pub sum-same :
    (f g : ℕ → ℕ) (b n : ℕ) → ((a : ℕ) → (a == b) ≡ false → g a ≡ f a) → n ≤ b → sum g n ≡ sum f n
unfolding sum
sum-same f g b zero h le = refl
sum-same f g b (suc n) h le =
    let e = h n (ground arith) in omega (arith, e, sum-same f g b n h (omega arith))

pub sum-drop :
    (f g : ℕ → ℕ) (b n : ℕ)
    → ((a : ℕ) → (a == b) ≡ false → g a ≡ f a)
    → f b ≡ suc (g b)
    → b < n
    → sum f n ≡ suc (sum g n)
unfolding sum
sum-drop f g b zero h d lt = absurd (omega arith)
sum-drop f g b (suc n) h d lt = elim (Bool-cases (n == b)) [
  | inl same ↦
      let e = (==_iff n b).0 same in
      let top = subst (λ a. f a ≡ suc (g a)) (sym e) d in
      omega (arith, top, sum-same f g b n h (omega arith))
  | inr other ↦ let e = h n other in omega (arith, e, sum-drop f g b n h d (ground arith))
]

-- A pointer to one of the first `n` objects.
abbrev pub Ptr : ℕ → Option ℕ → Type 0
Ptr n none = ⊥
Ptr n (some b) = b < n

pub back-Ptr :
    (n : ℕ) (p : Option ℕ) (ps : List (Option ℕ)) → All (Ptr n) (p ∷ ps) → Ptr n (back p ps)
unfolding back
back-Ptr n p [] h = h.0
back-Ptr n p (q ∷ qs) h = back-Ptr n q qs h.1

pub pop_back-Ptr :
    (n : ℕ) (p : Option ℕ) (ps : List (Option ℕ))
    → All (Ptr n) (p ∷ ps)
    → All (Ptr n) (pop_back p ps)
unfolding pop_back
pop_back-Ptr n p [] h = tt
pop_back-Ptr n p (q ∷ qs) h = (h.0, pop_back-Ptr n q qs h.1)

pub length-pop_back : (p : Option ℕ) (ps : List (Option ℕ)) → length (pop_back p ps) ≡ length ps
unfolding pop_back
length-pop_back p [] = refl
length-pop_back p (q ∷ qs) = omega (arith, length-pop_back q qs)

abbrev pub points_to : Option ℕ → ℕ → Bool
points_to none b = false
points_to (some a) b = a == b

unfoldable pub on_stack : ℕ → List (Option ℕ) → Bool
on_stack b [] = false
on_stack b (x ∷ xs) = points_to x b || on_stack b xs
