-- ===== src/Core/Agreement/Ballots.antt =====
-- What one replica has voted for, and why votes that follow the rules of src/consensus.cpp let no
-- other branch be certified once a block can be committed.
use kauri_public.Base.{
  ℕ, zero, suc, ◌+◌, ◌≤◌, ◌<◌, ◌≡◌, ◌≢◌, sym, ◌∙◌, ap, subst, ◌⊎◌, inl, inr, some, List, [], ◌∷◌,
  arith, All, Bool-cases, ==_iff, ◌==◌, ltb, ltb→lt, ltb→le,
}
use kauri_public.Core.Agreement.Tree.{
  Tree, IsTree, Extends, Certified, Chain, same, up, Extends-trans, Extends-eq, ref-lower,
}

-- A vote: the block, and the block that the replica was locked on when it voted.
pub record Ballot : Type 0 where
  pub blk : ℕ
  pub lock : ℕ

module _ (T : Tree) where
  -- The lock is at least as high as what was two certificates below a block that was voted for.
  abbrev pub Locks : ℕ → List Ballot → Type 0
  Locks lock =
      All (λ x. (c d : ℕ) → T.ref x.blk ≡ some c → T.ref c ≡ some d → T.height d ≤ T.height lock)

  abbrev pub LockIsCertified : ℕ → Type 0
  LockIsCertified lock = (lock ≡ T.genesis) ⊎ Certified T lock

  -- The block carries a certificate of a higher block than the lock, or extends the lock.
  abbrev pub IsSafe : Ballot → Type 0
  IsSafe x =
      ((r : ℕ) × (T.ref x.blk ≡ some r) × (T.height x.lock < T.height r)) ⊎ Extends T x.lock x.blk

  -- The votes of a replica, the latest first.
  abbrev pub Rules : List Ballot → Type 0
  Rules [] = Unit
  Rules (x ∷ xs) =
      All (λ y. T.height y.blk < T.height x.blk) xs
      × IsSafe x
      × Locks x.lock (x ∷ xs)
      × LockIsCertified x.lock
      × (0 < T.height x.blk)
      × Rules xs

  pub All-weaken :
      (v w : ℕ) (xs : List Ballot)
      → v ≤ w
      → All (λ x. T.height x.blk ≤ v) xs
      → All (λ x. T.height x.blk ≤ w) xs
  All-weaken v w [] k h = tt
  All-weaken v w (x ∷ xs) k h = (omega (arith, h.0), All-weaken v w xs k h.1)

  pub All-below :
      (v w : ℕ) (xs : List Ballot)
      → v < w
      → All (λ x. T.height x.blk ≤ v) xs
      → All (λ x. T.height x.blk < w) xs
  All-below v w [] k h = tt
  All-below v w (x ∷ xs) k h = (omega (arith, h.0), All-below v w xs k h.1)

  pub Locks-le : (a b : ℕ) (xs : List Ballot) → T.height a ≤ T.height b → Locks a xs → Locks b xs
  Locks-le a b [] k h = tt
  Locks-le a b (x ∷ xs) k h = (λ c d p q. omega (arith, h.0 c d p q), Locks-le a b xs k h.1)

-- A vote for the block by a replica that was not locked on it, as none is that has seen no
-- certificate of it.
pub data Cast (b : ℕ) : List Ballot → Type 0 where
  here : {x : Ballot} {xs : List Ballot} → x.blk ≡ b → x.lock ≢ b → Cast b (x ∷ xs)
  later : {x : Ballot} {xs : List Ballot} → Cast b xs → Cast b (x ∷ xs)

All-Cast {κ} :
    (P : Ballot → Type κ) {b : ℕ} (xs : List Ballot)
    → All P xs
    → Cast b xs
    → (x : Ballot) × (x.blk ≡ b) × P x
All-Cast P [] h c = elim c [ ]
All-Cast P (x ∷ xs) h (here e n) = (x, e, h.0)
All-Cast P (x ∷ xs) h (later c) = All-Cast P xs h.1 c

module _ (T : Tree) (tree : IsTree T) where
  -- A replica votes for one block of a height.
  Cast-one :
      (xs : List Ballot) {a b : ℕ}
      → Rules T xs
      → Cast a xs
      → Cast b xs
      → T.height a ≡ T.height b
      → a ≡ b
  Cast-one [] h c c' k = elim c [ ]
  Cast-one (x ∷ xs) h (here e n) (here e' n') k = sym e ∙ e'
  Cast-one (x ∷ xs) {a} {b} h (here e n) (later c) k =
      let (y, e', low) = All-Cast (λ y. T.height y.blk < T.height x.blk) xs h.0 c in
      absurd (omega (arith, ap T.height e, ap T.height e'))
  Cast-one (x ∷ xs) {a} {b} h (later c) (here e n) k =
      let (y, e', low) = All-Cast (λ y. T.height y.blk < T.height x.blk) xs h.0 c in
      absurd (omega (arith, ap T.height e, ap T.height e'))
  Cast-one (x ∷ xs) h (later c) (later c') k = Cast-one xs h.5 c c' k

  -- The vote for `w`, after one for a lower block `x`.
  abbrev After : ℕ → ℕ → Type 0
  After x w =
      (lock : ℕ) × (lock ≢ w)
      × IsSafe T (record { blk = w; lock = lock })
      × LockIsCertified T lock
      × ((c d : ℕ) → T.ref x ≡ some c → T.ref c ≡ some d → T.height d ≤ T.height lock)

  Cast-After :
      (xs : List Ballot) {x w : ℕ}
      → Rules T xs
      → Cast x xs
      → Cast w xs
      → T.height x < T.height w
      → After x w
  Cast-After [] h c c' k = elim c [ ]
  Cast-After (y ∷ ys) {x} {w} h (here e n) (here e' n') k =
      absurd (omega (arith, ap T.height e, ap T.height e'))
  Cast-After (y ∷ ys) {x} {w} h (here e n) (later c) k =
      let (z, e', low) = All-Cast (λ z. T.height z.blk < T.height y.blk) ys h.0 c in
      absurd (omega (arith, ap T.height e, ap T.height e'))
  Cast-After (y ∷ ys) {x} {w} h (later c) (here e n) k =
      let (z, e', locked) = All-Cast _ ys (h.2).1 c in
      (
        y.lock,
        n,
        subst (λ b. IsSafe T (record { blk = b; lock = y.lock })) e h.1,
        h.3,
        subst (λ b. (c d : ℕ) → T.ref b ≡ some c → T.ref c ≡ some d → T.height d ≤ T.height y.lock)
            e' locked,
      )
  Cast-After (y ∷ ys) h (later c) (later c') k = Cast-After ys h.5 c c' k

  -- Any two certified blocks have the vote of one replica that follows the rules.
  abbrev pub Meet : Type 0
  Meet =
      (a b : ℕ)
      → Certified T a
      → Certified T b
      → 0 < T.height a
      → 0 < T.height b
      → (xs : List Ballot) × Rules T xs × Cast a xs × Cast b xs

  module _ (meet : Meet) where
    Certified-one :
        (a b : ℕ) → Certified T a → Certified T b → 0 < T.height a → T.height a ≡ T.height b → a ≡ b
    Certified-one a b ca cb pos k =
        let (xs, rules, va, vb) = meet a b ca cb pos (omega arith) in Cast-one xs rules va vb k

    not-genesis : (w : ℕ) → 0 < T.height w → w ≢ T.genesis
    not-genesis w pos e = absurd (omega (arith, ap T.height e, tree.root))

    -- What is known of the certified blocks below `w` that are as high as `b` or higher.
    abbrev Below : ℕ → ℕ → Type 0
    Below b w =
        (v : ℕ) → T.height v < T.height w → Certified T v → T.height b ≤ T.height v → Extends T b v

    Extends-lower : {a b : ℕ} → Extends T a b → a ≢ b → T.height a < T.height b
    Extends-lower {a} {b} h ne = elim (Bool-cases (ltb (T.height a) (T.height b))) [
      | inl lower ↦ ltb→lt _ _ lower
      | inr level ↦ absurd (ne (Extends-eq T tree h (ltb→le _ _ level)))
    ]

    After-Extends :
        (x w b : ℕ)
        → Below b w
        → 0 < T.height b
        → T.height b < T.height w
        → ((lock : ℕ)
            → ((c d : ℕ) → T.ref x ≡ some c → T.ref c ≡ some d → T.height d ≤ T.height lock)
            → T.height b ≤ T.height lock)
        → After x w
        → Extends T b w
    After-Extends x w b below pos k locked (lock, ne, inl (r, e, above), cert, high) =
        let low = locked lock high in
        let (lower, ext) = ref-lower T tree w r e (not-genesis w (omega arith)) in
        Extends-trans T (below r lower (w, e) (omega arith)) ext
    After-Extends x w b below pos k locked (lock, ne, inr ext, inl root, high) =
        let low = locked lock high in absurd (omega (arith, ap T.height root, tree.root))
    After-Extends x w b below pos k locked (lock, ne, inr ext, inr cert, high) =
        Extends-trans T (below lock (Extends-lower ext ne) cert (locked lock high)) ext

    Chain-above :
        (w b : ℕ) (chain : Chain T b)
        → Below b w
        → Certified T w
        → 0 < T.height b
        → T.height chain.blk2 < T.height w
        → T.height b < T.height chain.blk2
        → Extends T b w
    Chain-above w b chain below cw pos k k' =
        let (xs, rules, v2, vw) =
          meet chain.blk2 w (chain.nblk, chain.ref2) cw (omega arith) (omega arith) in
        After-Extends chain.blk2 w b below pos (omega arith)
          (λ lock high. high chain.blk1 b chain.ref1 chain.ref0) (Cast-After xs rules v2 vw k)

    -- The blocks of the chain itself.
    level_with :
        (w b : ℕ) (chain : Chain T b)
        → Certified T w
        → 0 < T.height b
        → T.height b ≤ T.height w
        → T.height chain.blk1 ≡ T.height b + 1
        → T.height chain.blk2 ≡ T.height chain.blk1 + 1
        → T.height w ≤ T.height chain.blk2
        → Extends T b w
    level_with w b chain cw pos k h1 h2 k2 = elim (Bool-cases (T.height b == T.height w)) [
      | inl e0 ↦
          subst (Extends T b)
            (Certified-one b w (chain.blk1, chain.ref0) cw pos ((==_iff _ _).0 e0)) same
      | inr n0 ↦ elim (Bool-cases (T.height chain.blk1 == T.height w)) [
        | inl e1 ↦
            subst (Extends T b)
              (Certified-one chain.blk1 w (chain.blk2, chain.ref1) cw (omega arith)
                ((==_iff _ _).0 e1))
              (up chain.direct1 same)
        | inr n1 ↦
            subst (Extends T b)
              (Certified-one chain.blk2 w (chain.nblk, chain.ref2) cw (omega arith) (ground arith))
              (up chain.direct2 (up chain.direct1 same))
      ]
    ]

    -- Once `b` can be committed, a certified block that is as high or higher extends it.
    pub Chain-Extends :
        (fuel w b : ℕ)
        → T.height w < fuel
        → Certified T w
        → Chain T b
        → 0 < T.height b
        → T.height b ≤ T.height w
        → Extends T b w
    Chain-Extends zero w b m cw chain pos k = absurd (omega arith)
    Chain-Extends (suc fuel) w b m cw chain pos k =
        let h1 = tree.rises chain.blk1 b chain.direct1 in
        let h2 = tree.rises chain.blk2 chain.blk1 chain.direct2 in
        let below : Below b w =
          λ v lower cv high. Chain-Extends fuel v b (omega arith) cv chain pos high in
        elim (Bool-cases (ltb (T.height chain.blk2) (T.height w))) [
          | inl above ↦ Chain-above w b chain below cw pos (ltb→lt _ _ above) (omega arith)
          | inr level ↦ level_with w b chain cw pos k h1 h2 (ltb→le _ _ level)
        ]
