-- ===== src/Core/Update/Order.antt =====
-- Blocks are committed in the order of their heights, each once.
use mathlib.Core.List.{reverse-cons, append-nil}
use kauri_public.Base.{
  ℕ, suc, ◌+◌, ◌≡◌, refl, sym, ◌∙◌, ap, subst, Option, none, some, List, [], ◌∷◌, ◌++◌, reverse,
  arith, Bool-cases, ==_iff, ◌==◌, ltb, inl, inr,
}
use kauri_public.Base.Rising.{IsRising, IsRising-append}
use kauri_public.Base.Exec.{Result, ok, err}
use kauri_public.Crypto.Scheme.{Scheme}
use kauri_public.Entity.Block.{Block, first_of_list}
use kauri_public.Core.State.{
  HotStuffCore, Event, update_hqc, on_hqc_update, set_hqc, raise_hqc, at, decide, consensus,
  broadcast, vote, resolve_qc, resolve_proposal, resolve_hqc,
}
use kauri_public.Core.Update.{walk_from, commit, commit_walked, raise_lock, update}
use kauri_public.Core.Update.Rule.{update-rule}
use kauri_public.Core.Update.Chain.{Falls, Branch, stop, down, walk-Branch}
use kauri_public.Core.Update.Commit.{cmd_events, branch_events, mark, commit_all_lem}

module _ {C : Scheme} where
  -- The blocks that were announced as committed.
  unfoldable pub committed : List (Event C) → List ℕ
  committed [] = []
  committed (consensus b ∷ es) = b ∷ committed es
  committed (decide f ∷ es) = committed es
  committed (broadcast p ∷ es) = committed es
  committed (vote p v ∷ es) = committed es
  committed (resolve_qc n ∷ es) = committed es
  committed (resolve_proposal n p ∷ es) = committed es
  committed (resolve_hqc n ∷ es) = committed es

  pub committed-append :
      (xs ys : List (Event C)) → committed (xs ++ ys) ≡ committed xs ++ committed ys
  unfolding committed
  committed-append [] ys = refl
  committed-append (consensus b ∷ es) ys = ap (◌∷◌ b) (committed-append es ys)
  committed-append (decide f ∷ es) ys = committed-append es ys
  committed-append (broadcast p ∷ es) ys = committed-append es ys
  committed-append (vote p v ∷ es) ys = committed-append es ys
  committed-append (resolve_qc n ∷ es) ys = committed-append es ys
  committed-append (resolve_proposal n p ∷ es) ys = committed-append es ys
  committed-append (resolve_hqc n ∷ es) ys = committed-append es ys

  -- An output that announces no block.
  pub committed-silent :
      (es : List (Event C)) (e : Event C)
      → committed (e ∷ []) ≡ []
      → committed (es ++ e ∷ []) ≡ committed es
  committed-silent es e h =
      committed-append es (e ∷ []) ∙ ap (λ xs. committed es ++ xs) h ∙ append-nil (committed es)

  committed-cmd_events :
      (id : ℕ) (blk : Block C) (i : ℕ) (cmds : List ℕ) → committed (cmd_events id blk i cmds) ≡ []
  unfolding committed cmd_events
  committed-cmd_events id blk i [] = refl
  committed-cmd_events id blk i (cmd ∷ cmds) = committed-cmd_events id blk (i + 1) cmds

  pub committed-branch_events :
      (id : ℕ) (cell : ℕ → Block C) (bs : List ℕ) → committed (branch_events id cell bs) ≡ bs
  unfolding committed branch_events
  committed-branch_events id cell [] = refl
  committed-branch_events id cell (b ∷ bs) = ap (◌∷◌ b) (
      committed-append (cmd_events id (cell b) 0 (cell b).cmds) (branch_events id cell bs)
      ∙ (rw (committed-cmd_events id (cell b) 0 (cell b).cmds)
          (committed-branch_events id cell bs)))

  abbrev pub heights : (ℕ → Block C) → List ℕ → List ℕ
  heights cell [] = []
  heights cell (b ∷ bs) = (cell b).height ∷ heights cell bs

  pub heights-append :
      (cell : ℕ → Block C) (xs ys : List ℕ)
      → heights cell (xs ++ ys) ≡ heights cell xs ++ heights cell ys
  heights-append cell [] ys = refl
  heights-append cell (x ∷ xs) ys = ap (◌∷◌ (cell x).height) (heights-append cell xs ys)

  -- A branch that ends at the floor rises from there to its first block.
  pub Branch-IsRising :
      (cell : ℕ → Block C) {floor b last : ℕ} {queue : List ℕ}
      → Falls cell
      → Branch cell floor b queue last
      → (cell last).height ≡ floor
      → IsRising floor (cell b).height (heights cell (reverse queue))
  Branch-IsRising cell falls (stop low) e = omega arith
  Branch-IsRising cell {floor} falls (down {b} {p} {queue} high parent br) e =
      rw (reverse-cons b queue, heights-append cell (reverse queue) (b ∷ []))
        (IsRising-append floor (cell p).height (cell b).height (heights cell (reverse queue))
          ((cell b).height ∷ []) (Branch-IsRising cell falls br e) (falls b p parent, omega arith))

  -- The announced blocks rise from the genesis block to the last executed block, and direct parents
  -- are lower than their children.
  pub record InOrder (s : HotStuffCore C) : Type 0 where
    pub falls : Falls s.heap.cell
    pub rising : IsRising 0 (at s s.b_exec).height (heights s.heap.cell (committed s.outbox))

  raise_lock-InOrder : (b : ℕ) (s : HotStuffCore C) → InOrder s → InOrder (raise_lock b s)
  raise_lock-InOrder b s h = elim (Bool-cases (ltb (at s s.b_lock).height (at s b).height)) [
    | inl higher ↦ rw higher (record { falls = h.falls; rising = h.rising })
    | inr lower ↦ rw lower h
  ]

  pub committed-resolve_hqc :
      (es : List (Event C)) (n : ℕ) → committed (es ++ resolve_hqc n ∷ []) ≡ committed es
  unfolding committed
  committed-resolve_hqc es n = committed-append es (resolve_hqc n ∷ []) ∙ append-nil (committed es)

  set_hqc-InOrder :
      (b : ℕ) (qc : Option C.QuorumCert) (s : HotStuffCore C)
      → InOrder s
      → InOrder (set_hqc b qc s).1
  unfolding on_hqc_update
  set_hqc-InOrder b none s h = h
  set_hqc-InOrder b (some q) s h = record {
    falls = h.falls;
    rising =
        subst (λ bs. IsRising 0 (at s s.b_exec).height (heights s.heap.cell bs))
          (sym (committed-resolve_hqc s.outbox s.waiting.hqc_update_waiting)) h.rising;
  }

  raise_hqc-InOrder :
      (o : Option (ℕ × C.QuorumCert)) (b : ℕ) (qc : Option C.QuorumCert) (s : HotStuffCore C)
      → InOrder s
      → InOrder (raise_hqc o b qc s).1
  raise_hqc-InOrder none b qc s h = h
  raise_hqc-InOrder (some (top, cert)) b qc s h =
      elim (Bool-cases (ltb (at s top).height (at s b).height)) [
        | inl higher ↦ rw higher (set_hqc-InOrder b qc s h)
        | inr lower ↦ rw lower h
      ]

  pub update_hqc-InOrder :
      (b : ℕ) (qc : Option C.QuorumCert) (s : HotStuffCore C)
      → InOrder s
      → InOrder (update_hqc b qc s).1
  unfolding update_hqc
  update_hqc-InOrder b qc s h = raise_hqc-InOrder s.hqc b qc s h

  mark-height :
      (bs : List ℕ) (cell : ℕ → Block C) (a : ℕ) → (mark bs cell a).height ≡ (cell a).height
  mark-height bs cell a = ground arith

  mark-parents :
      (bs : List ℕ) (cell : ℕ → Block C) (a : ℕ) → (mark bs cell a).parents ≡ (cell a).parents
  mark-parents bs cell a = ground arith

  heights-mark :
      (bs : List ℕ) (cell : ℕ → Block C) (xs : List ℕ) → heights (mark bs cell) xs ≡ heights cell xs
  heights-mark bs cell [] = refl
  heights-mark bs cell (x ∷ xs) = ground (arith, mark-height bs cell x, heights-mark bs cell xs)

  Falls-mark : (bs : List ℕ) (cell : ℕ → Block C) → Falls cell → Falls (mark bs cell)
  Falls-mark bs cell falls b p e =
      rw (mark-height bs cell b, mark-height bs cell p)
        (falls b p (sym (ap first_of_list (mark-parents bs cell b)) ∙ e))

  commit-InOrder : (b : ℕ) (s : HotStuffCore C) → InOrder s → InOrder (commit b s).1
  unfolding commit
  commit-InOrder b s h = go (walk_from s.heap.cell (at s s.b_exec).height b) refl
    where
      go :
          (r : Result (List ℕ × ℕ))
          → walk_from s.heap.cell (at s s.b_exec).height b ≡ r
          → InOrder (commit_walked b r s).1
      go (err e) w = h
      go (ok (queue, last)) w = elim (Bool-cases (last == s.b_exec)) [
        | inl same ↦
            let br =
              walk-Branch s.heap.cell (suc (at s b).height) (at s s.b_exec).height b last queue w in
            let bottom : (at s last).height ≡ (at s s.b_exec).height =
              ap (λ a. (at s a).height) ((==_iff last s.b_exec).0 same) in
            rw (same, commit_all_lem (reverse queue) s)
              (record {
                falls = Falls-mark (reverse queue) s.heap.cell h.falls;
                rising =
                    rw
                      (
                        committed-append s.outbox,
                        committed-branch_events s.id s.heap.cell (reverse queue),
                        heights-mark (reverse queue) s.heap.cell,
                        heights-append s.heap.cell (committed s.outbox),
                        mark-height (reverse queue) s.heap.cell b,
                      )
                      (IsRising-append 0 (at s s.b_exec).height (at s b).height
                        (heights s.heap.cell (committed s.outbox))
                        (heights s.heap.cell (reverse queue)) h.rising
                        (Branch-IsRising s.heap.cell h.falls br bottom));
              })
        | inr other ↦ rw other h
      ]

  -- However `update` ends, the blocks announced as committed still have strictly rising heights, up
  -- to the height of the last executed block; so none is committed twice, or below one that was
  -- committed before.
  pub update-InOrder : (nblk : ℕ) (s : HotStuffCore C) → InOrder s → InOrder (update nblk s).1
  update-InOrder nblk s h =
      update-rule (at s nblk).qc_ref InOrder InOrder (λ t k. k)
        (λ _ _ b t _ _ k. commit-InOrder b t k) raise_lock-InOrder update_hqc-InOrder nblk s refl h
