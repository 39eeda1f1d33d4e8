-- ===== src/Core/Prune/Pruned.antt =====
-- `prune` ends, and what it leaves of the blocks.
use kauri_public.Base.{
  ℕ, zero, suc, ◌+◌, ◌*◌, ◌≤◌, ◌<◌, ◌≡◌, refl, sym, ◌∙◌, ap, subst, inl, inr, Option, none, some,
  List, [], ◌∷◌, arith, ◌==◌, Bool-cases, length, All, ◌⊎◌, ==_iff, ==_refl,
}
use kauri_public.Base.Exec.{Result, ok, Exec}
use kauri_public.Crypto.Scheme.{Scheme}
use kauri_public.Entity.Block.{Block}
use kauri_public.Core.State.{HotStuffCore, at}
use kauri_public.Core.Prune.{
  back, pop_back, skip_blocks, cut, release, prune_blk, prune_loop, prune_from, prune, skip_to,
}
use kauri_public.Core.Prune.Edges.{sum-same, Ptr, back-Ptr, pop_back-Ptr, on_stack}
use kauri_public.Core.Prune.Cuts.{
  IsTrimmed, IsCut, PointsBelow, IsPruning, release-IsPruning, at-cut, at-cut_self, cut-IsPruning,
  edges, edges-cut,
}

module _ {C : Scheme} where
  module _ (get_cnt : HotStuffCore C → List (Option ℕ) → ℕ → ℕ) where
    -- The loop returns, and only blocks and the storage have changed.
    abbrev Returns :
        (ℕ → Block C) → ℕ → HotStuffCore C → Result (Unit {0}) × HotStuffCore C → Type 0
    Returns old start s r =
        (t : HotStuffCore C) × (r ≡ (ok tt, t))
        × IsPruning old start [] t
        × (t ≡ record s { heap = t.heap; storage = t.storage })

    prune_blk-Returns :
        (old : ℕ → Block C) (start fuel b : ℕ) (ps stack : List (Option ℕ)) (s : HotStuffCore C)
        (k : List (Option ℕ) → Exec (HotStuffCore C) (Unit {0}))
        → (at s b).parents ≡ ps
        → IsPruning old start (some b ∷ stack) s
        → 2 * edges s + length stack ≤ fuel
        → ((st : List (Option ℕ)) (u : HotStuffCore C)
            → IsPruning old start st u
            → 2 * edges u + length st ≤ fuel
            → Returns old start u (k st u))
        → Returns old start s (prune_blk get_cnt b ps stack k s)
    unfolding release cut edges
    prune_blk-Returns old start fuel b [] stack s k e h fits rest =
        rest stack (release get_cnt b (some b ∷ stack) s)
          (release-IsPruning get_cnt old start b stack (some b ∷ stack) s e h) fits
    prune_blk-Returns old start fuel b (p ∷ ps) stack s k e h fits rest =
        let all = subst (All (Ptr s.heap.next)) e (h.below b h.top.0) in
        let fewer = edges-cut b p ps s h.top.0 e in
        rest (back p ps ∷ some b ∷ stack) (cut b (pop_back p ps) s)
          (cut-IsPruning old start b (back p ps) (pop_back p ps) stack s
            (back-Ptr s.heap.next p ps all) (pop_back-Ptr s.heap.next p ps all) h)
          (omega (arith, fewer))

    prune_loop-Returns :
        (old : ℕ → Block C) (start fuel : ℕ) (stack : List (Option ℕ)) (s : HotStuffCore C)
        → IsPruning old start stack s
        → 2 * edges s + length stack ≤ fuel
        → Returns old start s (prune_loop get_cnt fuel stack s)
    unfolding prune_loop
    prune_loop-Returns old start fuel [] s h fits = (s, refl, h, refl)
    prune_loop-Returns old start zero (x ∷ stack) s h fits = absurd (omega arith)
    prune_loop-Returns old start (suc fuel) (none ∷ stack) s h fits = absurd h.top.0
    prune_loop-Returns old start (suc fuel) (some b ∷ stack) s h fits =
        prune_blk-Returns old start fuel b (at s b).parents stack s (prune_loop get_cnt fuel) refl h
          (omega arith) λ st u i enough. prune_loop-Returns old start fuel st u i enough

  -- The block without parents and reference.
  abbrev pub bare : Block C → Block C
  bare v = record v { qc_ref = none; parents = [] }

  IsCut-bare : (x y : Block C) (b : ℕ) → IsCut x y b [] → y ≡ bare x
  unfolding on_stack
  IsCut-bare x y b (trim, inl e) =
      trim ∙ ap {B = Block C} (λ ps. record x { qc_ref = none; parents = ps }) e
  IsCut-bare x y b (trim, inr on) = absurd (ground arith)

  -- Where `prune` starts: no block, or one that is there.
  skip_blocks-ends :
      (s : HotStuffCore C) (staleness b : ℕ)
      → PointsBelow s
      → b < s.heap.next
      → (skip_blocks s.heap.cell staleness b ≡ ok none)
        ⊎ ((start : ℕ) × (start < s.heap.next)
            × (skip_blocks s.heap.cell staleness b ≡ ok (some start)))
  unfolding skip_blocks
  skip_blocks-ends s zero b below lt = inr (b, lt, refl)
  skip_blocks-ends s (suc staleness) b below lt =
      go (at s b).parents (below b lt) λ p h. skip_blocks-ends s staleness p below h
    where
      go :
          (ps : List (Option ℕ))
          → All (Ptr s.heap.next) ps
          → ((p : ℕ)
              → p < s.heap.next
              → (skip_blocks s.heap.cell staleness p ≡ ok none)
                ⊎ ((start : ℕ) × (start < s.heap.next)
                    × (skip_blocks s.heap.cell staleness p ≡ ok (some start))))
          → (skip_to ps (skip_blocks s.heap.cell staleness) ≡ ok none)
            ⊎ ((start : ℕ) × (start < s.heap.next)
                × (skip_to ps (skip_blocks s.heap.cell staleness) ≡ ok (some start)))
      go [] h next = inl refl
      go (none ∷ ps) h next = absurd h.0
      go (some p ∷ ps) h next = next p h.0

  begun-IsCut :
      (start : ℕ) (s : HotStuffCore C)
      → IsCut (at s start) (at (cut start (at s start).parents s) start) start (some start ∷ [])
  unfolding on_stack
  begun-IsCut start s = (
    subst (λ y. IsTrimmed (at s start) y) (sym (at-cut_self start (at s start).parents s)) refl,
    inr (ground (arith, ==_refl start)),
  )

  begun-IsPruning :
      (start : ℕ) (s : HotStuffCore C)
      → PointsBelow s
      → start < s.heap.next
      → IsPruning s.heap.cell start (some start ∷ []) (cut start (at s start).parents s)
  unfolding cut
  begun-IsPruning start s below lt =
      let t = cut start (at s start).parents s in
      record {
        left = λ a. elim (Bool-cases (a == start)) [
          | inl same ↦ inr (
              subst (λ c. IsCut (at s c) (at t c) c (some start ∷ []))
                (sym ((==_iff a start).0 same)) (begun-IsCut start s))
          | inr other ↦ inl (at-cut a start (at s start).parents s other)
        ];
        first = begun-IsCut start s;
        below = λ a h. elim (Bool-cases (a == start)) [
          | inl same ↦
              let e =
                ap (at t) ((==_iff a start).0 same) ∙ at-cut_self start (at s start).parents s in
              subst (λ y. All (Ptr s.heap.next) y.parents) (sym e) (below start lt)
          | inr other ↦
              subst (λ y. All (Ptr s.heap.next) y.parents)
                (sym (at-cut a start (at s start).parents s other)) (below a h)
        ];
        top = (lt, tt);
      }

  edges-begun :
      (start : ℕ) (s : HotStuffCore C) → edges (cut start (at s start).parents s) ≡ edges s
  unfolding edges cut
  edges-begun start s =
      let t = cut start (at s start).parents s in
      sum-same (λ a. length (at s a).parents) (λ a. length (at t a).parents) s.heap.next s.heap.next
        (λ a other. elim (Bool-cases (a == start)) [
          | inl same ↦
              let e = (==_iff a start).0 same in
              ap (λ c. length (at t c).parents) e
              ∙ ap (λ v. length v.parents) (at-cut_self start (at s start).parents s)
              ∙ ap (λ c. length (at s c).parents) (sym e)
          | inr away ↦ ap (λ v. length v.parents) (at-cut a start (at s start).parents s away)
        ])
        (omega arith)

  -- What `prune` has done once it returns: nothing, where the chain ends before its start; else the
  -- start has lost its parents and its reference, and so has each other block that was written.
  abbrev pub HasPruned : ℕ → HotStuffCore C → HotStuffCore C → Type 0
  HasPruned staleness s t =
      ((skip_blocks s.heap.cell staleness s.b_exec ≡ ok none) × (t ≡ s))
      ⊎ ((start : ℕ) × (skip_blocks s.heap.cell staleness s.b_exec ≡ ok (some start))
          × (at t start ≡ bare (at s start))
          × ((b : ℕ) → (at t b ≡ at s b) ⊎ (at t b ≡ bare (at s b)))
          × (t ≡ record s { heap = t.heap; storage = t.storage }))

  -- If the last executed block and the parents of all blocks are objects in memory, and the fuel is
  -- more than twice the number of all parents, `prune` returns, whatever the reference counts are.
  -- Then either the chain below the last executed block is too short and nothing has changed, or the
  -- block so many steps below it has no parents and no reference, each block is as it was or has
  -- neither parents nor a reference, and besides blocks only the storage has changed.
  pub prune-HasPruned :
      (get_cnt : HotStuffCore C → List (Option ℕ) → ℕ → ℕ) (fuel staleness : ℕ) (s : HotStuffCore C)
      → PointsBelow s
      → s.b_exec < s.heap.next
      → 2 * edges s < fuel
      → (t : HotStuffCore C) × (prune get_cnt fuel staleness s ≡ (ok tt, t))
        × HasPruned staleness s t
  unfolding prune cut
  prune-HasPruned get_cnt fuel staleness s below lt enough =
      elim (skip_blocks-ends s staleness s.b_exec below lt) [
        | inl short ↦ (s, ap (λ r. prune_from get_cnt fuel r s) short, inl (short, refl))
        | inr found ↦
            let start = found.0 in
            let u = cut start (at s start).parents s in
            let same = edges-begun start s in
            let (t, ran, h, frame) =
              prune_loop-Returns get_cnt s.heap.cell start fuel (some start ∷ []) u
                (begun-IsPruning start s below found.1) (omega (arith, same)) in
            (
              t,
              ap (λ r. prune_from get_cnt fuel r s) found.2 ∙ ran,
              inr (
                start,
                found.2,
                IsCut-bare (at s start) (at t start) start h.first,
                (λ b. whole b (at s b) (at t b) (h.left b)),
                frame,
              ),
            )
      ]
    where
      whole : (b : ℕ) (x y : Block C) → (y ≡ x) ⊎ IsCut x y b [] → (y ≡ x) ⊎ (y ≡ bare x)
      whole b x y (inl e) = inl e
      whole b x y (inr c) = inr (IsCut-bare x y b c)
