-- ===== src/Core/Agreement/Tree.antt =====
-- The tree of blocks that the replicas of src/consensus.cpp share, each block under its hash.
use kauri_public.Base.{
  ℕ, ◌+◌, ◌≤◌, ◌<◌, ◌≡◌, ◌≢◌, refl, sym, ◌∙◌, ap, subst, inl, inr, Option, some, arith,
  some_injective, Bool-cases, ==_iff, ◌==◌,
}

-- `height`, the hash of `parents[0]`, and the hash that the certificate `qc` names.
pub record Tree : Type 0 where
  pub genesis : ℕ
  pub height : ℕ → ℕ
  pub parent : ℕ → Option ℕ
  pub ref : ℕ → Option ℕ

-- `b` is `a`, or `a` is reached from `b` through direct parents.
pub data Extends (T : Tree) (a : ℕ) : ℕ → Type 0 where
  same : Extends T a a
  up : {b p : ℕ} → T.parent b ≡ some p → Extends T a p → Extends T a b

-- Heights count the blocks below, as `on_deliver_blk` sets them; a block above the first one stands
-- on the branch of the block whose certificate it carries.
pub record IsTree (T : Tree) : Type 0 where
  pub root : T.height T.genesis ≡ 0
  pub root_ref : (r : ℕ) → T.ref T.genesis ≡ some r → r ≡ T.genesis
  pub rises : (b p : ℕ) → T.parent b ≡ some p → T.height b ≡ T.height p + 1
  pub grounded :
      (b r : ℕ) → T.ref b ≡ some r → b ≢ T.genesis → (p : ℕ) × (T.parent b ≡ some p) × Extends T r p

-- A certificate of the block is carried by some block.
abbrev pub Certified : Tree → ℕ → Type 0
Certified T b = (c : ℕ) × (T.ref c ≡ some b)

-- Why `update` commits `b`: three blocks in a row are certified, with direct parents.
pub record Chain (T : Tree) (b : ℕ) : Type 0 where
  pub blk1 : ℕ
  pub blk2 : ℕ
  pub nblk : ℕ
  pub ref0 : T.ref blk1 ≡ some b
  pub ref1 : T.ref blk2 ≡ some blk1
  pub ref2 : T.ref nblk ≡ some blk2
  pub direct1 : T.parent blk1 ≡ some b
  pub direct2 : T.parent blk2 ≡ some blk1

pub Extends-trans : (T : Tree) {a b c : ℕ} → Extends T a b → Extends T b c → Extends T a c
Extends-trans T h same = h
Extends-trans T h (up e k) = up e (Extends-trans T h k)

module _ (T : Tree) (tree : IsTree T) where
  pub Extends-le : {a b : ℕ} → Extends T a b → T.height a ≤ T.height b
  Extends-le same = omega arith
  Extends-le (up {b} {p} e h) = omega (arith, tree.rises b p e, Extends-le h)

  pub Extends-eq : {a b : ℕ} → Extends T a b → T.height b ≤ T.height a → a ≡ b
  Extends-eq same k = refl
  Extends-eq (up {b} {p} e h) k = absurd (omega (arith, tree.rises b p e, Extends-le h))

  below-parent :
      {a c : ℕ} (p : ℕ)
      → Extends T a c
      → T.parent c ≡ some p
      → T.height a < T.height c
      → Extends T a p
  below-parent p same e k = absurd (omega arith)
  below-parent {a} p (up {p = q} e' h) e k =
      subst (λ x. Extends T a x) (some_injective q p (sym e' ∙ e)) h

  -- Of two blocks of one branch the higher extends the lower.
  pub Extends-linear :
      {a b c : ℕ} → Extends T a c → Extends T b c → T.height a ≤ T.height b → Extends T a b
  Extends-linear h same k = h
  Extends-linear h (up {b} {p} e g) k =
      Extends-linear (below-parent p h e (omega (arith, tree.rises b p e, Extends-le g))) g k

  pub ref-lower :
      (b r : ℕ) → T.ref b ≡ some r → b ≢ T.genesis → (T.height r < T.height b) × Extends T r b
  ref-lower b r e ne =
      let (p, q, h) = tree.grounded b r e ne in
      (omega (arith, tree.rises b p q, Extends-le h), up q h)

  pub ref-le : (b r : ℕ) → T.ref b ≡ some r → T.height r ≤ T.height b
  ref-le b r e = elim (Bool-cases (b == T.genesis)) [
    | inl root ↦
        let first : b ≡ T.genesis = (==_iff b T.genesis).0 root in
        let low : r ≡ T.genesis = tree.root_ref r (subst (λ x. T.ref x ≡ some r) first e) in
        omega (arith, ap T.height low, tree.root)
    | inr other ↦
        let (lower, ext) = ref-lower b r e (λ f. ground (arith, ==_iff b T.genesis)) in omega arith
  ]
