-- ===== src/Core/Propose.antt =====
-- `HotStuffCore::on_propose` and `process_block` of src/consensus.cpp.
use kauri_public.Base.{
  ℕ, ◌-◌, ◌%◌, Bool, true, false, Option, none, some, List, [], ◌∷◌, leb, ◌==◌, last?, set_erase,
  add32, if◌then◌else◌,
}
use kauri_public.Base.Exec.{
  ok, err, Exec, pure, raise, modify, undefined, empty_parents, not_higher, ◌>>=◌, ◌>>◌,
}
use kauri_public.Base.Maps
use kauri_public.Crypto.Scheme.{Scheme}
use kauri_public.Entity.Block.{new_block}
use kauri_public.Entity.Storage
use kauri_public.Core.State.{
  HotStuffCore, Proposal, broadcast, at, set_blk, emit, gettimeofday, on_propose_,
}
use kauri_public.Core.Deliver.{on_deliver_blk, u64_mod}
use kauri_public.Core.Update.{update}
use kauri_public.Core.Votes.{own_vote, on_receive_vote}

-- for (const auto &_: parents) tails.erase(_), where no parent is null
unfoldable pub drop_tails : List ℕ → List ℕ → List ℕ
drop_tails [] tails = tails
drop_tails (p ∷ ps) tails = drop_tails ps (set_erase p tails)

abbrev pub pointers : List ℕ → List (Option ℕ)
pointers [] = []
pointers (p ∷ ps) = some p ∷ pointers ps

-- `end - start`, a `long`, as a 64-bit pattern
abbrev usec_between : ℕ → ℕ → ℕ
usec_between start end = if leb start end then end - start else (u64_mod - (start - end)) % u64_mod

module _ {C : Scheme} where
  abbrev pub hashes_at : HotStuffCore C → List ℕ → List ℕ
  hashes_at s [] = []
  hashes_at s (p ∷ ps) = (at s p).hash ∷ hashes_at s ps

  abbrev create_self_qc : ℕ → Option C.QuorumCert → HotStuffCore C → HotStuffCore C
  create_self_qc b (some qc) s = s
  create_self_qc b none s =
      set_blk b
        (record (at s b) { self_qc = some (C.create_quorum_cert s.config.nreplicas (at s b).hash) })
        s

  abbrev raise_vheight : ℕ → Bool → Exec (HotStuffCore C) (Unit {0})
  raise_vheight b false s = (ok tt, s)
  raise_vheight b true s =
      if leb (at s b).height s.vheight
      then (err not_higher, s)
      else (ok tt, record s { vheight = (at s b).height })

  abbrev announce : ℕ → Exec (HotStuffCore C) Proposal
  announce b s =
      let prop : Proposal = record { proposer = s.id; blk = b } in (ok prop, on_propose_ prop s)

  -- What `on_deliver_blk` returns is not looked at.
  unfoldable pub process_block : ℕ → Bool → Exec (HotStuffCore C) Proposal
  unfolding set_blk on_deliver_blk update on_receive_vote on_propose_
  process_block b adjust_height = do
    modify (λ s. create_self_qc b (at s b).self_qc s)
    on_deliver_blk b
    update b
    raise_vheight b adjust_height
    (λ s. on_receive_vote (own_vote s b) s)
    announce b

  -- storage->add_blk(new Block(parents, cmds, hqc.second->clone(), extra,
  -- parents[0]->height + 1, ref, nullptr)), for parents `p ∷ ps`, where `ref` is chosen by
  -- `hqc.first`
  unfoldable pub make_block_for : (ℕ → ℕ) → ℕ → List ℕ → List ℕ → List ℕ → Exec (HotStuffCore C) ℕ
  unfolding Storage.alloc Storage.add_blk new_block
  make_block_for ref p ps cmds extra s = elim s.hqc [
    | none ↦ (err undefined, s)
    | some (top, qc) ↦
        let blk =
          new_block C (pointers (p ∷ ps)) (hashes_at s (p ∷ ps)) cmds (C.clone qc) extra
            (add32 (at s p).height 1) (some (ref top)) in
        let (b, heap) = Storage.alloc s.heap blk in
        let (b', storage) = Storage.add_blk heap s.storage b in
        (ok b', record s { heap = heap; storage = storage })
  ]

  abbrev pub make_block : ℕ → List ℕ → List ℕ → List ℕ → Exec (HotStuffCore C) ℕ
  make_block = make_block_for (λ top. top)

  -- The last piped block goes in front of the parents unless the first of them is higher.
  abbrev make_on_piped : Option ℕ → ℕ → List ℕ → List ℕ → List ℕ → Exec (HotStuffCore C) ℕ
  make_on_piped none p ps cmds extra s = (err undefined, s)
  make_on_piped (some piped) p ps cmds extra s =
      if leb (at s p).height (at s piped).height
      then make_block piped (p ∷ ps) cmds extra s
      else make_block p ps cmds extra s

  unfoldable pub make_on_tip : ℕ → List ℕ → List ℕ → List ℕ → Exec (HotStuffCore C) ℕ
  unfolding make_block_for Storage.find_blk
  make_on_tip p ps cmds extra s = elim (last? s.piped_queue) [
    | none ↦ make_block p ps cmds extra s
    | some h ↦ make_on_piped (Storage.find_blk s.storage h) p ps cmds extra s
  ]

  abbrev note_time : ℕ → ℕ → Exec (HotStuffCore C) (Unit {0})
  note_time b start s =
      if s.id == 0
      then (do
        end ← gettimeofday
        modify λ t. record t {
          figures = record (t.figures) {
            stats = Maps.insert (at t b).hash (usec_between start end) t.figures.stats;
          };
        })
          s
      else (ok tt, s)

  unfoldable pub on_propose : List ℕ → List ℕ → List ℕ → Exec (HotStuffCore C) ℕ
  unfolding gettimeofday make_on_tip process_block emit
  on_propose cmds [] extra = do start ← gettimeofday; raise empty_parents
  on_propose cmds (p ∷ ps) extra = do
    start ← gettimeofday
    modify (λ s. record s { tails = drop_tails (p ∷ ps) s.tails })
    b ← make_on_tip p ps cmds extra
    modify (λ s. record s { b_normal_height = (at s b).height })
    prop ← process_block b true
    modify (emit (broadcast prop))
    note_time b start
    pure b
