-- ===== src/Net/Relays.antt =====
-- `vote_relay_handler` of src/hotstuff.cpp, with the queue of blocks that have a quorum and wait for
-- the piped blocks before them.
pub mod Queue
pub mod Quorum
pub mod Checked
use kauri_public.Base.{
  ℕ, zero, suc, ◌+◌, Bool, true, false, not, ◌&&◌, ◌||◌, Option, none, some, List, [], ◌∷◌, ◌++◌,
  ◌==◌, contains, length, remove_first, head?, if◌then◌else◌,
}
use kauri_public.Base.Exec.{
  Result, ok, err, Exec, need, modify, lift, undefined, diverged, mismatched_cert,
  invalid_signature, ◌>>=◌, ◌>>◌,
}
use kauri_public.Crypto.Scheme.{Scheme}
use kauri_public.Entity.Config
use kauri_public.Entity.Storage
use kauri_public.Core.State.{HotStuffCore, at, set_blk, update_hqc, on_qc_finish}
use kauri_public.Wire.Messages.{VoteRelay}
use kauri_public.Net.State.{
  check_relay, HotStuffBase, on_core, is_proposer, cert_of, put_cert, prepare, defer,
}
use kauri_public.Net.Votes.{has_subtree, relay_up, finish_blk}

-- Whether the first parent hash of a block is `h`.
abbrev pub is_child_of : ℕ → List ℕ → Result Bool
is_child_of h [] = err undefined
is_child_of h (p ∷ ps) = ok (p == h)

abbrev pub or_else : ℕ → ℕ → Result Bool → Result (Option (ℕ × ℕ)) → Result (Option (ℕ × ℕ))
or_else h b (err e) rest = err e
or_else h b (ok true) rest = ok (some (h, b))
or_else h b (ok false) rest = rest

module _ {C : Scheme} where
  abbrev pub look_at :
      HotStuffCore C → ℕ → ℕ → Option ℕ → Result (Option (ℕ × ℕ)) → Result (Option (ℕ × ℕ))
  look_at s parent h none rest = err undefined
  look_at s parent h (some b) rest = or_else h b (is_child_of parent (at s b).parent_hashes) rest

  -- The first waiting block whose first parent has the hash `parent`, with its hash.
  unfoldable pub find_ready : HotStuffCore C → ℕ → List ℕ → Result (Option (ℕ × ℕ))
  find_ready s parent [] = ok none
  find_ready s parent (h ∷ hs) =
      look_at s parent h (Storage.find_blk s.storage h) (find_ready s parent hs)

  -- `hash` is read again, by reference, after its element was erased from `rdy_queue`; here it keeps
  -- its value. Erasing what is not in `piped_queue` is undefined.
  abbrev pub take_out : ℕ → Exec (HotStuffCore C) (Unit {0})
  take_out h s =
      if contains h s.piped_queue
      then (
        ok tt,
        record s {
          rdy_queue = remove_first h s.rdy_queue;
          piped_queue = remove_first h s.piped_queue;
        },
      )
      else (err undefined, s)

  abbrev pub finish_ready : ℕ → ℕ → Exec (HotStuffCore C) (Unit {0})
  finish_ready h b = do take_out h; λ s. update_hqc b (at s b).self_qc s; modify (on_qc_finish b)

  abbrev pub resolve_found :
      Result (Option (ℕ × ℕ))
      → (ℕ → Exec (HotStuffCore C) (Unit {0}))
      → Exec (HotStuffCore C) (Unit {0})
  resolve_found (err e) k s = (err e, s)
  resolve_found (ok none) k s = (ok tt, s)
  resolve_found (ok (some (h, b))) k s = (finish_ready h b >> k b) s

  -- while (foundChildren)
  unfoldable pub resolve_ready : ℕ → ℕ → Exec (HotStuffCore C) (Unit {0})
  unfolding find_ready update_hqc on_qc_finish
  resolve_ready zero b s = (err diverged, s)
  resolve_ready (suc fuel) b s =
      resolve_found (find_ready s (at s b).hash s.rdy_queue) (resolve_ready fuel) s

  -- Each round takes a hash out of the queue.
  abbrev pub resolve_all : ℕ → Exec (HotStuffCore C) (Unit {0})
  resolve_all b s = resolve_ready (length s.rdy_queue + 1) b s

  -- A relay for a block that has its quorum: `front()` of an empty queue is undefined.
  abbrev pub pop_front_of : ℕ → List ℕ → Exec (HotStuffCore C) (Unit {0})
  pop_front_of b [] s = (err undefined, s)
  pop_front_of b (x ∷ xs) s =
      if (at s b).hash == x then resolve_all b (record s { piped_queue = xs }) else (ok tt, s)

  unfoldable pub late_relay : ℕ → Exec (HotStuffBase C) (Unit {0})
  unfolding resolve_ready
  late_relay b s =
      if is_proposer s then on_core (pop_front_of b s.core.piped_queue) s else (ok tt, s)

  unfoldable pub relay_handler : Option ℕ → VoteRelay C → Exec (HotStuffBase C) (Unit {0})
  unfolding prepare late_relay
  relay_handler none v s = (ok tt, s)
  relay_handler (some peer) v s =
      (do
        (b, qc) ← prepare v.blk_hash
        λ t.
            if C.has_n t.core.config.nmajority qc
            then late_relay b t
            else (ok tt, defer (check_relay b v peer) t))
        s

  -- The proposer finishes piped blocks in their order: the front at once, with those that waited for
  -- it; another is put into `rdy_queue`.
  abbrev pub finish_in_order : ℕ → C.QuorumCert → List ℕ → Exec (HotStuffCore C) (Unit {0})
  finish_in_order b qc [] s = finish_blk b qc s
  finish_in_order b qc (x ∷ xs) s =
      if (at s b).hash == x
      then (finish_blk b qc >> resolve_all b) (record s { piped_queue = xs })
      else if contains (at s b).hash (x ∷ xs)
      then (ok tt, record s { rdy_queue = s.rdy_queue ++ (at s b).hash ∷ [] })
      else finish_blk b qc s

  abbrev pub finish_verified : ℕ → C.QuorumCert → Result Bool → Exec (HotStuffCore C) (Unit {0})
  finish_verified b qc (err e) s = (err e, s)
  finish_verified b qc (ok false) s = (ok tt, s)
  finish_verified b qc (ok true) s = finish_in_order b qc s.piped_queue s

  unfoldable pub root_merged : ℕ → C.QuorumCert → Exec (HotStuffCore C) (Unit {0})
  unfolding set_blk finish_blk resolve_ready
  root_merged b qc s =
      let qc' = C.compute qc in
      if C.has_n s.config.nmajority qc
      then finish_verified b qc' (C.verify (Config.get_pubkey s.config) qc') (put_cert b qc' s)
      else (ok tt, put_cert b qc s)

  unfoldable pub inner_merged : ℕ → ℕ → C.QuorumCert → Exec (HotStuffBase C) (Unit {0})
  unfolding set_blk relay_up
  inner_merged b h qc s =
      let t : HotStuffBase C = record s { core = put_cert b qc s.core } in
      if has_subtree s qc then relay_up (err invalid_signature) b h qc t else (ok tt, t)

  abbrev pub merged : ℕ → ℕ → Option C.QuorumCert → Exec (HotStuffBase C) (Unit {0})
  merged b h none s = (err mismatched_cert, s)
  merged b h (some qc) s =
      if is_proposer s then on_core (root_merged b qc) s else inner_merged b h qc s

  -- Whether the certificate of votes still takes relays.
  abbrev pub takes_relay : HotStuffBase C → ℕ → C.QuorumCert → Bool
  takes_relay s b qc =
      (C.obj_hash qc == (at s.core b).hash && not (C.has_n s.core.config.nmajority qc))
      && (is_proposer s || not (has_subtree s qc))

  abbrev pub relay_into : ℕ → VoteRelay C → Option C.QuorumCert → Exec (HotStuffBase C) (Unit {0})
  relay_into b v none s = (ok tt, s)
  relay_into b v (some qc) s =
      if takes_relay s b qc then merged b v.blk_hash (C.merge_quorum v.cert qc) s else (ok tt, s)

  -- Once the block is delivered and the certificate checked. The verdict is logged, and not looked at.
  unfoldable pub relay_checked : ℕ → VoteRelay C → Bool → Exec (HotStuffBase C) (Unit {0})
  unfolding root_merged inner_merged
  relay_checked b v valid s = relay_into b v (at s.core b).self_qc s
