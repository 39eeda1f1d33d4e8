-- ===== src/Core/Update/Chain.antt =====
-- The loop of `update` that collects a branch, and the same loop of `on_receive_proposal`.
use kauri_public.Base.{
  ℕ, zero, suc, ◌≤◌, ◌<◌, ◌≡◌, ◌≢◌, refl, inl, inr, Option, none, some, List, [], ◌∷◌, arith, ltb,
  ltb→lt, ltb→le, lt→ltb, le→ltb, Bool-cases, All,
}
use kauri_public.Base.Exec.{Result, ok, err, diverged}
use kauri_public.Crypto.Scheme.{Scheme}
use kauri_public.Entity.Block.{Block, first_of_list}
use kauri_public.Core.Update.{walk, step_to, pushed}

module _ {C : Scheme} (cell : ℕ → Block C) where
  -- `p` is the direct parent of `b`.
  abbrev pub IsParent : ℕ → ℕ → Type 0
  IsParent p b = first_of_list (cell b).parents ≡ ok (some p)

  -- A direct parent is lower than its child.
  abbrev pub Falls : Type 0
  Falls = (b p : ℕ) → IsParent p b → (cell p).height < (cell b).height

  -- From `b` down through direct parents, the blocks above `floor` are `queue`, and `last` is the
  -- first one that is not.
  pub data Branch (floor : ℕ) : ℕ → List ℕ → ℕ → Type 0 where
    stop : {b : ℕ} → (cell b).height ≤ floor → Branch floor b [] b
    down :
        {b p last : ℕ} {queue : List ℕ}
        → floor < (cell b).height
        → IsParent p b
        → Branch floor p queue last
        → Branch floor b (b ∷ queue) last

  step_to-Branch :
      (floor b last : ℕ) (queue : List ℕ) (r : Result (Option ℕ)) (k : ℕ → Result (List ℕ × ℕ))
      → floor < (cell b).height
      → first_of_list (cell b).parents ≡ r
      → ((p : ℕ) (q : List ℕ) → k p ≡ ok (q, last) → Branch floor p q last)
      → pushed b (step_to r k) ≡ ok (queue, last)
      → Branch floor b queue last
  step_to-Branch floor b last queue (err e) k high e' ih h = absurd (ground arith)
  step_to-Branch floor b last queue (ok none) k high e' ih h = absurd (ground arith)
  step_to-Branch floor b last queue (ok (some p)) k high e' ih h = go (k p) refl h
    where
      go :
          (r : Result (List ℕ × ℕ))
          → k p ≡ r
          → pushed b r ≡ ok (queue, last)
          → Branch floor b queue last
      go (err e) e'' h' = absurd (ground arith)
      go (ok (q, l)) e'' h' =
          let q_eq : b ∷ q ≡ queue = ground arith in
          let l_eq : l ≡ last = ground arith in
          rw (← q_eq) (down high e' (ih p q (rw (← l_eq) e'')))

  -- What the loop returns is a branch.
  pub walk-Branch :
      (fuel floor b last : ℕ) (queue : List ℕ)
      → walk cell fuel floor b ≡ ok (queue, last)
      → Branch floor b queue last
  unfolding walk
  walk-Branch zero floor b last queue h = absurd (ground arith)
  walk-Branch (suc fuel) floor b last queue h = elim (Bool-cases (ltb floor (cell b).height)) [
    | inl high ↦
        step_to-Branch floor b last queue _ (walk cell fuel floor) (ltb→lt _ _ high) refl
          (λ p q. walk-Branch fuel floor p last q) (rw (high, walk) at h)
    | inr low ↦
        let done : ◌≡◌ {A = Result (List ℕ × ℕ)} (ok ([], b)) (ok (queue, last)) =
          rw (low, walk) at h in
        let q_eq : [] ≡ queue = ground arith in
        let l_eq : b ≡ last = ground arith in rw (← q_eq, ← l_eq) (stop (ltb→le _ _ low))
  ]

  -- Every branch is found, with as much fuel as its start is high.
  pub Branch-walk :
      {floor b last : ℕ} {queue : List ℕ} (fuel : ℕ)
      → Falls
      → Branch floor b queue last
      → (cell b).height < fuel
      → walk cell fuel floor b ≡ ok (queue, last)
  unfolding walk
  Branch-walk zero falls br h = absurd (omega arith)
  Branch-walk (suc fuel) falls (stop low) h = rw (le→ltb _ _ low, walk)
  Branch-walk (suc fuel) falls (down {b} {p} high e br) h =
      rw (lt→ltb _ _ high, walk, e, Branch-walk fuel falls br (omega (arith, falls b p e))) refl

  pushed-ne-diverged :
      (b : ℕ) (r : Result (List ℕ × ℕ)) → r ≢ err diverged → pushed b r ≢ err diverged
  pushed-ne-diverged b (err e) n h = n (ground arith)
  pushed-ne-diverged b (ok (q, last)) n h = cc

  parents-ne-diverged :
      (b : ℕ) (ps : List (Option ℕ)) (k : ℕ → Result (List ℕ × ℕ))
      → ((p : ℕ) → first_of_list ps ≡ ok (some p) → k p ≢ err diverged)
      → pushed b (step_to (first_of_list ps) k) ≢ err diverged
  parents-ne-diverged b [] k n h = cc
  parents-ne-diverged b (none ∷ ps) k n h = cc
  parents-ne-diverged b (some p ∷ ps) k n h = pushed-ne-diverged b (k p) (n p refl) h

  -- Where direct parents are lower, the loop does not run out of its fuel, if that is more than the
  -- height of the block it starts from.
  pub walk-terminates :
      (fuel floor b : ℕ) → Falls → (cell b).height < fuel → walk cell fuel floor b ≢ err diverged
  unfolding walk
  walk-terminates zero floor b falls h = absurd (omega arith)
  walk-terminates (suc fuel) floor b falls h = elim (Bool-cases (ltb floor (cell b).height)) [
    | inl high ↦
        rw (high, walk)
          (parents-ne-diverged b (cell b).parents (walk cell fuel floor)
            λ p e. walk-terminates fuel floor p falls (omega (arith, falls b p e)))
    | inr low ↦ rw (low, walk) (λ e. cc)
  ]

  -- The blocks of a branch rise from above the floor, read from its lower end.
  pub Branch-last :
      {floor b last : ℕ} {queue : List ℕ} → Branch floor b queue last → (cell last).height ≤ floor
  Branch-last (stop low) = low
  Branch-last (down high e br) = Branch-last br

  pub Branch-high :
      {floor b last : ℕ} {queue : List ℕ}
      → Branch floor b queue last
      → All (λ a. floor < (cell a).height) queue
  Branch-high (stop low) = tt
  Branch-high (down high e br) = (high, Branch-high br)
