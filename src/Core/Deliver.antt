-- ===== src/Core/Deliver.antt =====
-- `HotStuffCore::on_deliver_blk` of src/consensus.cpp.
pub mod Parents
pub mod Steps
pub mod Done
use kauri_public.Base.{
  ℕ, zero, suc, ◌+◌, ◌-◌, ◌/◌, ◌%◌, ◌^◌, Bool, true, false, Option, none, some, List, [], ◌∷◌, ◌++◌,
  ltb, leb, contains, set_insert, set_erase, add32, if◌then◌else◌,
}
use kauri_public.Base.Exec.{
  Result, ok, err, Exec, pure, raise, lift, need, modify, undefined, not_fetched, ◌>>=◌, ◌>>◌,
}
use kauri_public.Base.Maps
use kauri_public.Crypto.Scheme.{Scheme}
use kauri_public.Entity.Block.{Block, first_of_list}
use kauri_public.Entity.Storage
use kauri_public.Core.State.{
  HotStuffCore, Figures, at, blk_at, set_blk, gettimeofday, get_delivered_blk,
}

abbrev pub u64_mod : ℕ
u64_mod = 2 ^ 64

-- `(end - start) / 1000` as a `long`, read as a `uint64_t`.
unfoldable pub latency : ℕ → ℕ → ℕ
latency start end =
    if leb start end then (end - start) / 1000 else (u64_mod - (start - end) / 1000) % u64_mod

abbrev or_zero : Option ℕ → Figures → ℕ → Figures
or_zero none f end = f
or_zero (some start) f end = record f {
  summed_latency = (f.summed_latency + latency start end) % u64_mod;
  processed_blocks = (f.processed_blocks + 1) % u64_mod;
}

-- The time between the delivery of a block and that of a block that carries its certificate.
unfoldable pub add_latency : Option ℕ → ℕ → Figures → Figures
unfolding latency
add_latency none end f = f
add_latency (some h) end f = or_zero (Maps.find h f.proposal_time) f end

-- for (auto pblk: blk->parents) tails.erase(pblk)
unfoldable pub erase_tails : List (Option ℕ) → List ℕ → List ℕ
erase_tails [] tails = tails
erase_tails (none ∷ ps) tails = erase_tails ps tails
erase_tails (some p ∷ ps) tails = erase_tails ps (set_erase p tails)

module _ {C : Scheme} where
  -- blk->parents.push_back(p)
  unfoldable pub push_parent : ℕ → Option ℕ → HotStuffCore C → HotStuffCore C
  unfolding set_blk
  push_parent b p s = set_blk b (record (at s b) { parents = (at s b).parents ++ p ∷ [] }) s

  -- A piped parent need not be delivered, nor even be stored.
  unfoldable pub deliver_parent : ℕ → ℕ → Exec (HotStuffCore C) (Unit {0})
  unfolding push_parent
  deliver_parent b h s =
      if contains h s.piped_queue
      then (ok tt, push_parent b (Storage.find_blk s.storage h) s)
      else (do p ← get_delivered_blk h; modify (push_parent b (some p))) s

  unfoldable pub deliver_parents : ℕ → List ℕ → Exec (HotStuffCore C) (Unit {0})
  unfolding deliver_parent
  deliver_parents b [] = pure tt
  deliver_parents b (h ∷ hs) = do deliver_parent b h; deliver_parents b hs

  abbrev pub pointer : Option ℕ → Exec (HotStuffCore C) ℕ
  pointer p = need p undefined

  -- blk->height = blk->parents[0]->height + 1
  unfoldable pub set_height : ℕ → Exec (HotStuffCore C) (Unit {0})
  unfolding set_blk
  set_height b = do
    blk ← blk_at b
    first ← lift (first_of_list blk.parents)
    p ← pointer first
    parent ← blk_at p
    modify (λ s. set_blk b (record (at s b) { height = add32 parent.height 1 }) s)

  abbrev pub fetched_or_throw : Option ℕ → Exec (HotStuffCore C) ℕ
  fetched_or_throw r = need r not_fetched

  -- `blk->qc_ref` stays what it was where there is no certificate.
  unfoldable pub set_qc_ref : ℕ → Option C.QuorumCert → Exec (HotStuffCore C) (Unit {0})
  unfolding set_blk
  set_qc_ref b none s = (ok tt, s)
  set_qc_ref b (some qc) s =
      (do
        r ← fetched_or_throw (Storage.find_blk s.storage (C.obj_hash qc))
        modify (λ t. set_blk b (record (at t b) { qc_ref = some r }) t))
        s

  unfoldable pub mark_delivered : ℕ → HotStuffCore C → HotStuffCore C
  unfolding set_blk
  mark_delivered b s =
      set_blk b (record (at s b) { delivered = true })
        (record s { tails = set_insert b (erase_tails (at s b).parents s.tails) })

  abbrev hash_at : HotStuffCore C → Option ℕ → Option ℕ
  hash_at s none = none
  hash_at s (some r) = some (at s r).hash

  unfoldable pub record_time : ℕ → Exec (HotStuffCore C) (Unit {0})
  unfolding gettimeofday add_latency
  record_time b s =
      if ltb 50 (at s b).height
      then (do
        end ← gettimeofday
        modify λ t. record t {
          figures = add_latency (hash_at t (at t b).qc_ref) end (record (t.figures) {
            proposal_time = Maps.put (at t b).hash end t.figures.proposal_time;
          });
        })
          s
      else (ok tt, s)

  unfoldable pub deliver : ℕ → Exec (HotStuffCore C) Bool
  unfolding set_blk set_height set_qc_ref mark_delivered record_time
  deliver b = do
    blk ← blk_at b
    modify (set_blk b (record blk { parents = [] }))
    deliver_parents b blk.parent_hashes
    set_height b
    set_qc_ref b blk.qc
    modify (mark_delivered b)
    record_time b
    pure true

  unfoldable pub on_deliver_blk : ℕ → Exec (HotStuffCore C) Bool
  unfolding deliver
  on_deliver_blk b s = if (at s b).delivered then (ok false, s) else deliver b s
