-- ===== src/Core/Prune/Cuts.antt =====
-- One round of the loop of `prune`.
use kauri_public.Base.{
  ℕ, suc, ◌<◌, ◌≡◌, refl, sym, ◌∙◌, ap, subst, inl, inr, true, false, Option, none, some, List, [],
  ◌∷◌, arith, ◌==◌, Bool-cases, length, All, ◌⊎◌, ==_iff, ==_refl,
}
use kauri_public.Crypto.Scheme.{Scheme}
use kauri_public.Entity.Block.{Block}
use kauri_public.Entity.Storage
use kauri_public.Core.State.{HotStuffCore, at, set_blk}
use kauri_public.Core.Prune.{pop_back, cut, release}
use kauri_public.Core.Prune.Edges.{sum, sum-drop, Ptr, length-pop_back, on_stack}

module _ {C : Scheme} where
  -- The block `y` is `x` but for its parents, and it has no reference.
  abbrev pub IsTrimmed : Block C → Block C → Type 0
  IsTrimmed x y = y ≡ record x { qc_ref = none; parents = y.parents }

  -- What the loop has done to a block: it still has parents only while it is on the stack.
  abbrev pub IsCut : Block C → Block C → ℕ → List (Option ℕ) → Type 0
  IsCut x y b stack = IsTrimmed x y × ((y.parents ≡ []) ⊎ (on_stack b stack ≡ true))

  abbrev pub PointsBelow : HotStuffCore C → Type 0
  PointsBelow s = (b : ℕ) → b < s.heap.next → All (Ptr s.heap.next) (at s b).parents

  -- The state of the loop, which started at `start` with the blocks `old`.
  pub record IsPruning (old : ℕ → Block C) (start : ℕ) (stack : List (Option ℕ))
      (s : HotStuffCore C) : Type 0 where
    pub left : (b : ℕ) → (at s b ≡ old b) ⊎ IsCut (old b) (at s b) b stack
    pub first : IsCut (old start) (at s start) start stack
    pub below : PointsBelow s
    pub top : All (Ptr s.heap.next) stack

  drop-IsCut :
      (x : Block C) (a b : ℕ) (stack : List (Option ℕ)) (s : HotStuffCore C)
      → (at s b).parents ≡ []
      → IsCut x (at s a) a (some b ∷ stack)
      → IsCut x (at s a) a stack
  unfolding on_stack
  drop-IsCut x a b stack s none_left (trim, inl e) = (trim, inl e)
  drop-IsCut x a b stack s none_left (trim, inr on) = elim (Bool-cases (b == a)) [
    | inl here ↦ (trim, inl (subst (λ c. (at s c).parents ≡ []) ((==_iff b a).0 here) none_left))
    | inr away ↦ (trim, inr (ground arith))
  ]

  pub release-IsPruning :
      (get_cnt : HotStuffCore C → List (Option ℕ) → ℕ → ℕ) (old : ℕ → Block C) (start b : ℕ)
      (stack above : List (Option ℕ)) (s : HotStuffCore C)
      → (at s b).parents ≡ []
      → IsPruning old start (some b ∷ stack) s
      → IsPruning old start stack (release get_cnt b above s)
  unfolding release
  release-IsPruning get_cnt old start b stack above s none_left h = record {
    left = λ a. kept a (h.left a);
    first = drop-IsCut (old start) start b stack s none_left h.first;
    below = h.below;
    top = h.top.1;
  }
    where
      kept :
          (a : ℕ)
          → (at s a ≡ old a) ⊎ IsCut (old a) (at s a) a (some b ∷ stack)
          → (at s a ≡ old a) ⊎ IsCut (old a) (at s a) a stack
      kept a (inl e) = inl e
      kept a (inr c) = inr (drop-IsCut (old a) a b stack s none_left c)

  -- The blocks that are not cut are left alone.
  pub at-cut :
      (a b : ℕ) (ps : List (Option ℕ)) (s : HotStuffCore C)
      → (a == b) ≡ false
      → at (cut b ps s) a ≡ at s a
  unfolding cut set_blk Storage.write
  at-cut a b ps s other = rw other refl

  pub at-cut_self :
      (b : ℕ) (ps : List (Option ℕ)) (s : HotStuffCore C)
      → at (cut b ps s) b ≡ record (at s b) { qc_ref = none; parents = ps }
  unfolding cut set_blk Storage.write
  at-cut_self b ps s = rw (==_refl b) refl

  trim_again :
      (x y : Block C) (ps : List (Option ℕ))
      → (y ≡ x) ⊎ IsTrimmed x y
      → IsTrimmed x (record y { qc_ref = none; parents = ps })
  trim_again x y ps (inl e) = ap {A = Block C} (λ v. record v { qc_ref = none; parents = ps }) e
  trim_again x y ps (inr e) = ap {A = Block C} (λ v. record v { qc_ref = none; parents = ps }) e

  push-IsCut :
      (x y : Block C) (a b : ℕ) (q : Option ℕ) (stack : List (Option ℕ))
      → IsCut x y a (some b ∷ stack)
      → IsCut x y a (q ∷ some b ∷ stack)
  unfolding on_stack
  push-IsCut x y a b q stack (trim, inl e) = (trim, inl e)
  push-IsCut x y a b q stack (trim, inr on) = (trim, inr (ground arith))

  IsCut-IsTrimmed :
      (x y : Block C) (b : ℕ) (stack : List (Option ℕ))
      → (y ≡ x) ⊎ IsCut x y b stack
      → (y ≡ x) ⊎ IsTrimmed x y
  IsCut-IsTrimmed x y b stack (inl e) = inl e
  IsCut-IsTrimmed x y b stack (inr c) = inr c.0

  -- A block that is cut while it is on the stack.
  cut-IsCut :
      (old : ℕ → Block C) (a b : ℕ) (q : Option ℕ) (ps stack : List (Option ℕ)) (s : HotStuffCore C)
      → (a == b) ≡ true
      → (at s a ≡ old a) ⊎ IsTrimmed (old a) (at s a)
      → IsCut (old a) (at (cut b ps s) a) a (q ∷ some b ∷ stack)
  unfolding on_stack
  cut-IsCut old a b q ps stack s same h =
      let e = (==_iff a b).0 same in
      let v =
        ap (at (cut b ps s)) e
        ∙ at-cut_self b ps s
        ∙ ap (λ c. record (at s c) { qc_ref = none; parents = ps }) (sym e) in
      (
        subst (λ y. IsTrimmed (old a) y) (sym v) (trim_again (old a) (at s a) ps h),
        inr (ground (arith, ==_refl b, e)),
      )

  pub cut-IsPruning :
      (old : ℕ → Block C) (start b : ℕ) (q : Option ℕ) (ps stack : List (Option ℕ))
      (s : HotStuffCore C)
      → Ptr s.heap.next q
      → All (Ptr s.heap.next) ps
      → IsPruning old start (some b ∷ stack) s
      → IsPruning old start (q ∷ some b ∷ stack) (cut b ps s)
  unfolding cut
  cut-IsPruning old start b q ps stack s there lower h = record {
    left = λ a. elim (Bool-cases (a == b)) [
      | inl same ↦ inr (
          cut-IsCut old a b q ps stack s same
            (IsCut-IsTrimmed (old a) (at s a) a (some b ∷ stack) (h.left a)))
      | inr other ↦
          subst (λ y. (y ≡ old a) ⊎ IsCut (old a) y a (q ∷ some b ∷ stack))
            (sym (at-cut a b ps s other)) (kept a (h.left a))
    ];
    first = elim (Bool-cases (start == b)) [
      | inl same ↦ cut-IsCut old start b q ps stack s same (inr h.first.0)
      | inr other ↦
          subst (λ y. IsCut (old start) y start (q ∷ some b ∷ stack))
            (sym (at-cut start b ps s other))
            (push-IsCut (old start) (at s start) start b q stack h.first)
    ];
    below = λ a lt. elim (Bool-cases (a == b)) [
      | inl same ↦
          let e = ap (at (cut b ps s)) ((==_iff a b).0 same) ∙ at-cut_self b ps s in
          subst (λ y. All (Ptr s.heap.next) y.parents) (sym e) lower
      | inr other ↦
          subst (λ y. All (Ptr s.heap.next) y.parents) (sym (at-cut a b ps s other)) (h.below a lt)
    ];
    top = (there, h.top);
  }
    where
      kept :
          (a : ℕ)
          → (at s a ≡ old a) ⊎ IsCut (old a) (at s a) a (some b ∷ stack)
          → (at s a ≡ old a) ⊎ IsCut (old a) (at s a) a (q ∷ some b ∷ stack)
      kept a (inl e) = inl e
      kept a (inr c) = inr (push-IsCut (old a) (at s a) a b q stack c)

  -- The parents that the blocks have, all together.
  unfoldable pub edges : HotStuffCore C → ℕ
  unfolding sum
  edges s = sum (λ b. length (at s b).parents) s.heap.next

  pub edges-cut :
      (b : ℕ) (p : Option ℕ) (ps : List (Option ℕ)) (s : HotStuffCore C)
      → b < s.heap.next
      → (at s b).parents ≡ p ∷ ps
      → edges s ≡ suc (edges (cut b (pop_back p ps) s))
  unfolding edges cut
  edges-cut b p ps s lt e =
      let t = cut b (pop_back p ps) s in
      sum-drop (λ a. length (at s a).parents) (λ a. length (at t a).parents) b s.heap.next
        (λ a other. ap (λ v. length v.parents) (at-cut a b (pop_back p ps) s other))
        (ap length e
          ∙ ap suc (sym (length-pop_back p ps))
          ∙ ap suc (sym (ap (λ v. length v.parents) (at-cut_self b (pop_back p ps) s))))
        lt
