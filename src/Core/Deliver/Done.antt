-- ===== src/Core/Deliver/Done.antt =====
-- What a successful `on_deliver_blk` has done.
use kauri_public.Base.{
  ℕ, ◌≡◌, ◌≢◌, refl, sym, ◌∙◌, ap, inl, inr, Bool, true, false, Option, none, some, List, [], ◌∷◌,
  arith, add32, set_insert, Bool-cases, if◌then◌else◌, All,
}
use kauri_public.Base.Exec.{ok, Exec, bind-eq-ok, ◌>>◌, modify, pure}
use kauri_public.Crypto.Scheme.{Scheme}
use kauri_public.Entity.Block.{Block, first_of_list}
use kauri_public.Entity.Storage
use kauri_public.Core.State.{HotStuffCore, at, set_blk}
use kauri_public.Core.Deliver.{
  deliver_parents, set_height, set_qc_ref, mark_delivered, record_time, erase_tails, deliver,
  on_deliver_blk,
}
use kauri_public.Core.Deliver.Parents.{
  at-set_blk, at-set_blk_ne, set_blk-set_blk, Linkable, with_parents, found_all, deliver_parents-ok,
}
use kauri_public.Core.Deliver.Steps.{
  with_height, with_qc_ref, certified, set_height-ok, set_qc_ref-ok, record_time-heap,
}

module _ {C : Scheme} where
  delivered-set_blk :
      (b a : ℕ) (v : Block C) (s : HotStuffCore C)
      → v.delivered ≡ (at s b).delivered
      → (at (set_blk b v s) a).delivered ≡ (at s a).delivered
  unfolding set_blk Storage.write
  delivered-set_blk b a v s h = ground arith

  height-set_blk :
      (b a : ℕ) (v : Block C) (s : HotStuffCore C)
      → v.height ≡ (at s b).height
      → (at (set_blk b v s) a).height ≡ (at s a).height
  unfolding set_blk Storage.write
  height-set_blk b a v s h = ground arith

  abbrev cleared : ℕ → HotStuffCore C → HotStuffCore C
  cleared b s = set_blk b (record (at s b) { parents = [] }) s

  Linkable-cleared :
      (b : ℕ) (s : HotStuffCore C) (hs : List ℕ)
      → All (Linkable (cleared b s)) hs
      → All (Linkable s) hs
  unfolding set_blk
  Linkable-cleared b s [] k = tt
  Linkable-cleared b s (h ∷ hs) (inl piped, ks) = (inl piped, Linkable-cleared b s hs ks)
  Linkable-cleared b s (h ∷ hs) (inr (p, found, done), ks) = (
    inr (p, found, sym (delivered-set_blk b p (record (at s b) { parents = [] }) s refl) ∙ done),
    Linkable-cleared b s hs ks,
  )

  found_all-set_blk :
      (b : ℕ) (v : Block C) (s : HotStuffCore C) (hs : List ℕ)
      → found_all (set_blk b v s) hs ≡ found_all s hs
  unfolding set_blk
  found_all-set_blk b v s [] = refl
  found_all-set_blk b v s (h ∷ hs) =
      ap (◌∷◌ (Storage.find_blk s.storage h)) (found_all-set_blk b v s hs)

  certified-set_blk :
      (b : ℕ) (v : Block C) (s : HotStuffCore C) (qc : Option C.QuorumCert) (old : Option ℕ)
      → certified qc old (set_blk b v s) ≡ certified qc old s
  unfolding set_blk
  certified-set_blk b v s none old = refl
  certified-set_blk b v s (some qc) old = refl

  -- The delivered block, where `p` is its first parent.
  abbrev pub linked : ℕ → ℕ → HotStuffCore C → Block C
  linked b p s = record (at s b) {
    parents = found_all s (at s b).parent_hashes;
    height = add32 (at s p).height 1;
    qc_ref = certified (at s b).qc (at s b).qc_ref s;
    delivered = true;
  }

  pub record Delivered (s t : HotStuffCore C) (b : ℕ) : Type 0 where
    pub ready : All (Linkable s) (at s b).parent_hashes
    pub p : ℕ
    pub first : first_of_list (found_all s (at s b).parent_hashes) ≡ ok (some p)
    pub blk : at t b ≡ linked b p s
    pub others : (a : ℕ) → a ≢ b → at t a ≡ at s a
    pub tails : t.tails ≡ set_insert b (erase_tails (found_all s (at s b).parent_hashes) s.tails)

  -- The steps after the parents are linked, on a state that differs in the block alone.
  three_writes :
      (b p : ℕ) (s s2 s3 s4 : HotStuffCore C)
      → s2 ≡ set_blk b (record (at s b) { parents = found_all s (at s b).parent_hashes }) s
      → s3 ≡ set_blk b (with_height (add32 (at s2 p).height 1) (at s2 b)) s2
      → s4 ≡ set_blk b (with_qc_ref (certified (at s b).qc (at s3 b).qc_ref s3) (at s3 b)) s3
      → s4 ≡ set_blk b (record (linked b p s) { delivered = (at s b).delivered }) s
  three_writes b p s s2 s3 s4 e2 e3 e4 =
      let v2 : Block C = record (at s b) { parents = found_all s (at s b).parent_hashes } in
      let v3 : Block C = with_height (add32 (at s p).height 1) v2 in
      let at2 : at s2 b ≡ v2 = ap (λ u. at u b) e2 ∙ at-set_blk b v2 s in
      let h2 : (at s2 p).height ≡ (at s p).height =
        ap (λ u. (at u p).height) e2 ∙ height-set_blk b p v2 s refl in
      let e3' : s3 ≡ set_blk b v3 s =
        e3
        ∙ ap (λ h. set_blk b (with_height (add32 h 1) (at s2 b)) s2) h2
        ∙ ap (λ v. set_blk b (with_height (add32 (at s p).height 1) v) s2) at2
        ∙ ap (set_blk b v3) e2
        ∙ set_blk-set_blk b v2 v3 s in
      let at3 : at s3 b ≡ v3 = ap (λ u. at u b) e3' ∙ at-set_blk b v3 s in
      let ref3 : certified (at s b).qc (at s3 b).qc_ref s3
          ≡ certified (at s b).qc (at s b).qc_ref s =
        ap (λ v. certified (at s b).qc v.qc_ref s3) at3
        ∙ ap (certified (at s b).qc (at s b).qc_ref) e3'
        ∙ certified-set_blk b v3 s (at s b).qc (at s b).qc_ref in
      let v4 : Block C = with_qc_ref (certified (at s b).qc (at s b).qc_ref s) v3 in
      e4
      ∙ ap (λ r. set_blk b (with_qc_ref r (at s3 b)) s3) ref3
      ∙ ap (λ v. set_blk b (with_qc_ref (certified (at s b).qc (at s b).qc_ref s) v) s3) at3
      ∙ ap (set_blk b v4) e3'
      ∙ set_blk-set_blk b v3 v4 s

  abbrev finish : ℕ → Exec (HotStuffCore C) Bool
  finish b = do modify (mark_delivered b); record_time b; pure true

  finish-ok :
      (b p : ℕ) (s s4 t : HotStuffCore C)
      → s4 ≡ set_blk b (record (linked b p s) { delivered = (at s b).delivered }) s
      → finish b s4 ≡ (ok true, t)
      → (t.heap ≡ (set_blk b (linked b p s) s).heap)
        × (t.tails ≡ set_insert b (erase_tails (found_all s (at s b).parent_hashes) s.tails))
  unfolding mark_delivered set_blk
  finish-ok b p s s4 t e4 e =
      let v4 : Block C = record (linked b p s) { delivered = (at s b).delivered } in
      let m4 : HotStuffCore C = set_blk b v4 s in
      let (x, u, g, r) = bind-eq-ok (record_time b) (λ _. pure true) (mark_delivered b s4) e in
      let last : t ≡ (record_time b (mark_delivered b s4)).1 =
        sym (ap (λ r. r.1) r) ∙ sym (ap (λ r. r.1) g) in
      let kept = record_time-heap b (mark_delivered b s4) in
      (
        ap (λ w. w.heap) last
            ∙ kept.0
            ∙ ap (λ w. (mark_delivered b w).heap) e4
            ∙ ap (λ v. (set_blk b (record v { delivered = true }) m4).heap) (at-set_blk b v4 s)
            ∙ ap (λ w. w.heap) (set_blk-set_blk b v4 (linked b p s) s),
        ap (λ w. w.tails) last
            ∙ kept.1
            ∙ ap (λ w. (mark_delivered b w).tails) e4
            ∙ ap (λ v. set_insert b (erase_tails v.parents s.tails)) (at-set_blk b v4 s),
      )

  parents_linked :
      (b : ℕ) (s s2 : HotStuffCore C)
      → (let s1 = cleared b s in
          s2 ≡ set_blk b (with_parents (found_all s1 (at s b).parent_hashes) (at s1 b)) s1)
      → s2 ≡ set_blk b (record (at s b) { parents = found_all s (at s b).parent_hashes }) s
  parents_linked b s s2 e =
      let s1 : HotStuffCore C = cleared b s in
      let bare : Block C = record (at s b) { parents = [] } in
      let found = found_all s (at s b).parent_hashes in
      e
      ∙ ap (λ ps. set_blk b (with_parents ps (at s1 b)) s1)
          (found_all-set_blk b bare s (at s b).parent_hashes)
      ∙ ap (λ v. set_blk b (with_parents found v) s1) (at-set_blk b bare s)
      ∙ set_blk-set_blk b bare (record (at s b) { parents = found }) s

  assemble :
      (b p : ℕ) (s s2 t : HotStuffCore C)
      → s2 ≡ set_blk b (record (at s b) { parents = found_all s (at s b).parent_hashes }) s
      → All (Linkable s) (at s b).parent_hashes
      → first_of_list (at s2 b).parents ≡ ok (some p)
      → (t.heap ≡ (set_blk b (linked b p s) s).heap)
        × (t.tails ≡ set_insert b (erase_tails (found_all s (at s b).parent_hashes) s.tails))
      → Delivered s t b
  assemble b p s s2 t e2 ready first (heap, tails) =
      let v2 : Block C = record (at s b) { parents = found_all s (at s b).parent_hashes } in
      let at2 : at s2 b ≡ v2 = ap (λ u. at u b) e2 ∙ at-set_blk b v2 s in
      record {
        ready = ready;
        p = p;
        first = sym (ap (λ v. first_of_list v.parents) at2) ∙ first;
        blk = ap (λ g. g.cell b) heap ∙ at-set_blk b (linked b p s) s;
        others = λ a ne. ap (λ g. g.cell a) heap ∙ at-set_blk_ne a b (linked b p s) s ne;
        tails = tails;
      }

  deliver-ok :
      (b : ℕ) (s : HotStuffCore C) {t : HotStuffCore C}
      → deliver b s ≡ (ok true, t)
      → Delivered s t b
  unfolding deliver
  deliver-ok b s {t} e =
      let s1 : HotStuffCore C = cleared b s in
      let hs = (at s b).parent_hashes in
      let (x2, s2, g2, r2) =
        bind-eq-ok (deliver_parents b hs) (λ _. do set_height b; set_qc_ref b (at s b).qc; finish b)
          s1 e in
      let (x3, s3, g3, r3) =
        bind-eq-ok (set_height b) (λ _. do set_qc_ref b (at s b).qc; finish b) s2 r2 in
      let (x4, s4, g4, r4) = bind-eq-ok (set_qc_ref b (at s b).qc) (λ _. finish b) s3 r3 in
      let (e2, ready) = deliver_parents-ok b hs s1 g2 in
      let (p, first, e3) = set_height-ok b s2 g3 in
      let e4 = set_qc_ref-ok b (at s b).qc s3 g4 in
      let e2' = parents_linked b s s2 e2 in
      assemble b p s s2 t e2' (Linkable-cleared b s hs ready) first
        (finish-ok b p s s4 t (three_writes b p s s2 s3 s4 e2' e3 e4) r4)

  -- If `on_deliver_blk` answers true, then every parent hash is that of a piped block or of a stored
  -- and delivered one, the parents are the stored blocks of those hashes in their order, the first
  -- of them exists, the block's height is one more than its (mod 2^32), its certificate refers to the
  -- stored block of its hash, the block is delivered, it has taken its parents' place among the
  -- tails, and no other block is written.
  pub on_deliver_blk-Delivered :
      (b : ℕ) (s t : HotStuffCore C) → on_deliver_blk b s ≡ (ok true, t) → Delivered s t b
  unfolding on_deliver_blk
  on_deliver_blk-Delivered b s t e = elim (Bool-cases (at s b).delivered) [
    | inl old ↦ let k = ap (λ r. r.0) e in absurd (ground arith)
    | inr fresh ↦
        deliver-ok b s (ap (λ d. if d then (ok false, s) else deliver b s) (sym fresh) ∙ e)
  ]
