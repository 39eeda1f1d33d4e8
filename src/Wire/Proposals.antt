-- ===== src/Wire/Proposals.antt =====
-- `Proposal` of include/hotstuff/consensus.h: its block is added to the storage of the receiver.
use kauri_public.Base.{
  ℕ, ◌^◌, ◌<◌, ◌≡◌, refl, sym, ◌∙◌, ap, subst, Option, none, some, List, ◌++◌, length, ◌==◌,
  ==_refl, All, if◌then◌else◌,
}
use mathlib.Core.List.{append_assoc}
use kauri_public.Base.Maps
use kauri_public.Crypto.Scheme.{Scheme}
use kauri_public.Entity.Block.{Block}
use kauri_public.Entity.Storage
use kauri_public.Entity.Storage.{Heap, EntityStorage, value_or}
use kauri_public.Core.State.{HotStuffCore, Proposal, at}
use kauri_public.Wire.Stream.{Get, PartialCodec, Reads, done, ◌>>=◌, Wire, WireLaws, Below}
use kauri_public.Wire.Entities.{serialize, unserialize, read_block, unserialize-serialize}

module _ {C : Scheme} where
  -- hsc->storage->add_blk(std::move(_blk), hsc->get_config())
  unfoldable pub keep_blk : Block C → HotStuffCore C → ℕ × HotStuffCore C
  unfolding Storage.add_new_blk
  keep_blk v s =
      let (b, heap, storage) = Storage.add_new_blk s.heap s.storage v in
      (b, record s { heap = heap; storage = storage })

  -- The block is the stored one of its hash, where there is one, and else a new one.
  pub record Kept (v : Block C) (s t : HotStuffCore C) (b : ℕ) : Type 0 where
    pub stored : Storage.find_blk t.storage v.hash ≡ some b
    pub fresh : Storage.find_blk s.storage v.hash ≡ none → at t b ≡ v
    pub known : (old : ℕ) → Storage.find_blk s.storage v.hash ≡ some old → b ≡ old

  with_new : Block C → ℕ → HotStuffCore C → ℕ × HotStuffCore C
  with_new v h s = (
    value_or s.heap.next (Storage.find_blk s.storage h),
    record s {
      heap = (Storage.alloc s.heap v).1;
      storage = record (s.storage) { blk_cache = Maps.insert h s.heap.next s.storage.blk_cache };
    },
  )

  keep_blk-eq : (v : Block C) (s : HotStuffCore C) → keep_blk v s ≡ with_new v v.hash s
  unfolding keep_blk Storage.add_new_blk Storage.alloc Storage.add_blk with_new
  keep_blk-eq v s =
      ap (λ d. with_new v (if d then v else s.heap.cell s.heap.next).hash s) (==_refl s.heap.next)

  with_new-Kept :
      (v : Block C) (s : HotStuffCore C) → Kept v s (with_new v v.hash s).1 (with_new v v.hash s).0
  unfolding with_new Storage.alloc Storage.find_blk
  with_new-Kept v s = record {
    stored =
        Maps.find-insert v.hash v.hash s.heap.next s.storage.blk_cache
        ∙ ap
            (λ d.
              if d
              then Maps.or_else (Maps.find v.hash s.storage.blk_cache) s.heap.next
              else Maps.find v.hash s.storage.blk_cache)
            (==_refl v.hash)
        ∙ either (Maps.find v.hash s.storage.blk_cache);
    fresh = λ missing.
        ap
          (λ o.
            if value_or s.heap.next o == s.heap.next
            then v
            else s.heap.cell (value_or s.heap.next o))
          missing
        ∙ ap (λ d. if d then v else s.heap.cell s.heap.next) (==_refl s.heap.next);
    known = λ old there. ap (value_or s.heap.next) there;
  }
    where
      either : (o : Option ℕ) → Maps.or_else o s.heap.next ≡ some (value_or s.heap.next o)
      either none = refl
      either (some old) = refl

  keep_blk-Kept : (v : Block C) (s : HotStuffCore C) → Kept v s (keep_blk v s).1 (keep_blk v s).0
  keep_blk-Kept v s = subst (λ r. Kept v s r.1 r.0) (sym (keep_blk-eq v s)) (with_new-Kept v s)

abbrev after_rid : Wire → ℕ → Option (List ℕ) → Option (List ℕ)
after_rid W rid none = none
after_rid W rid (some out) = some (W.u16.put rid ++ out)

module _ {C : Scheme} (W : Wire) (certs : PartialCodec C.QuorumCert) where
  unfoldable pub put_proposal : HotStuffCore C → Proposal → Option (List ℕ)
  unfolding serialize
  put_proposal s prop = after_rid W prop.proposer (serialize W certs (at s prop.blk))

  abbrev kept_as : ℕ → ℕ × HotStuffCore C → Proposal × HotStuffCore C
  kept_as proposer (b, t) = (record { proposer = proposer; blk = b }, t)

  unfoldable pub get_proposal : HotStuffCore C → Get (Proposal × HotStuffCore C)
  unfolding unserialize keep_blk
  get_proposal s = do
    proposer ← W.u16.get
    v ← unserialize W certs
    done (kept_as proposer (keep_blk v s))

  module _ (laws : WireLaws W) (P : C.QuorumCert → Type 0) (norm : C.QuorumCert → C.QuorumCert)
      (certs-get : Reads certs P norm) where
    -- The round trip of a proposal, from what its block's certificate is read as.
    pub get_proposal-put_proposal :
        (s r : HotStuffCore C) (prop : Proposal) (qc : C.QuorumCert) (rest : List ℕ)
        → (at s prop.blk).qc ≡ some qc
        → P qc
        → prop.proposer < 2 ^ 16
        → All (Below 256) (at s prop.blk).parent_hashes
        → All (Below 256) (at s prop.blk).cmds
        → length (at s prop.blk).parent_hashes < 2 ^ 32
        → length (at s prop.blk).cmds < 2 ^ 32
        → length (at s prop.blk).extra < 2 ^ 32
        → let v =
            read_block W certs
              (at s prop.blk).parent_hashes
              (at s prop.blk).cmds
              (norm qc)
              (at s prop.blk).extra in
          (out : List ℕ) × (got : Proposal) × (t : HotStuffCore C) × (put_proposal s prop
            ≡ some out)
          × (get_proposal r (out ++ rest) ≡ some ((got, t), rest))
          × (got.proposer ≡ prop.proposer)
          × Kept v r t got.blk
    unfolding put_proposal get_proposal
    get_proposal-put_proposal s r prop qc rest carried good rid parents cmds n m k =
        let b = at s prop.blk in
        let v = read_block W certs b.parent_hashes b.cmds (norm qc) b.extra in
        let (out, written, read) =
          unserialize-serialize W certs laws P norm certs-get b qc carried good parents cmds n m
            k in
        (
          W.u16.put prop.proposer ++ out,
          record { proposer = prop.proposer; blk = (keep_blk v r).0 },
          (keep_blk v r).1,
          ap (after_rid W prop.proposer) written,
          simp append_assoc
              (rw (laws.u16-get prop.proposer (out ++ rest) rid) (rw (read rest) refl)),
          refl,
          keep_blk-Kept v r,
        )
