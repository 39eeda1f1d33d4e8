-- ===== src/Net/Relays/Queue.antt =====
-- The loop over `rdy_queue`: it ends.
use kauri_public.Base.{
  ℕ, zero, suc, ◌+◌, ◌<◌, ◌≡◌, ◌≢◌, refl, sym, ◌∙◌, ap, subst, inl, inr, Bool, true, false, Option,
  none, some, List, [], ◌∷◌, arith, ◌==◌, ltb, Bool-cases, contains, length, remove_first,
  length-remove_first,
}
use kauri_public.Base.Exec.{Result, ok, err, Exec, continue, undefined, diverged, bind-rule}
use kauri_public.Base.Maps
use kauri_public.Crypto.Scheme.{Scheme}
use kauri_public.Entity.Storage
use kauri_public.Core.State.{
  HotStuffCore, at, update_hqc, raise_hqc, set_hqc, on_hqc_update, on_qc_finish, resolve_waiting,
}
use kauri_public.Net.Relays.{
  is_child_of, or_else, look_at, find_ready, finish_ready, resolve_found, resolve_ready,
}

module _ {C : Scheme} where
  -- Blocks, storage, configuration and queues are as before.
  pub record Frame (s t : HotStuffCore C) : Type 0 where
    pub heap : t.heap ≡ s.heap
    pub storage : t.storage ≡ s.storage
    pub config : t.config ≡ s.config
    pub rdy : t.rdy_queue ≡ s.rdy_queue
    pub piped : t.piped_queue ≡ s.piped_queue

  Frame-refl : (s : HotStuffCore C) → Frame s s
  Frame-refl s = record { heap = refl; storage = refl; config = refl; rdy = refl; piped = refl }

  set_hqc-Frame :
      (b : ℕ) (qc : Option C.QuorumCert) (s : HotStuffCore C) → Frame s (set_hqc b qc s).1
  unfolding on_hqc_update
  set_hqc-Frame b none s = Frame-refl s
  set_hqc-Frame b (some q) s = record {
    heap = refl;
    storage = refl;
    config = refl;
    rdy = refl;
    piped = refl;
  }

  raise_hqc-Frame :
      (o : Option (ℕ × C.QuorumCert)) (b : ℕ) (qc : Option C.QuorumCert) (s : HotStuffCore C)
      → Frame s (raise_hqc o b qc s).1
  raise_hqc-Frame none b qc s = Frame-refl s
  raise_hqc-Frame (some (top, cert)) b qc s =
      elim (Bool-cases (ltb (at s top).height (at s b).height)) [
        | inl higher ↦ rw higher (set_hqc-Frame b qc s)
        | inr lower ↦ rw lower (Frame-refl s)
      ]

  pub update_hqc-Frame :
      (b : ℕ) (qc : Option C.QuorumCert) (s : HotStuffCore C) → Frame s (update_hqc b qc s).1
  unfolding update_hqc
  update_hqc-Frame b qc s = raise_hqc-Frame s.hqc b qc s

  resolve_waiting-Frame :
      (b : ℕ) (o : Option ℕ) (s : HotStuffCore C) → Frame s (resolve_waiting b o s)
  resolve_waiting-Frame b none s = Frame-refl s
  resolve_waiting-Frame b (some p) s = record {
    heap = refl;
    storage = refl;
    config = refl;
    rdy = refl;
    piped = refl;
  }

  pub on_qc_finish-Frame : (b : ℕ) (s : HotStuffCore C) → Frame s (on_qc_finish b s)
  unfolding on_qc_finish
  on_qc_finish-Frame b s = resolve_waiting-Frame b (Maps.find b s.waiting.qc_waiting) s

  raise_hqc-ne :
      (o : Option (ℕ × C.QuorumCert)) (b : ℕ) (qc : Option C.QuorumCert) (s : HotStuffCore C)
      → (raise_hqc o b qc s).0 ≢ err diverged
  raise_hqc-ne none b qc s = λ e. ground arith
  raise_hqc-ne (some (top, cert)) b none s = λ e. ground arith
  raise_hqc-ne (some (top, cert)) b (some q) s = λ e. ground arith

  update_hqc-ne :
      (b : ℕ) (qc : Option C.QuorumCert) (s : HotStuffCore C) → (update_hqc b qc s).0 ≢ err diverged
  unfolding update_hqc
  update_hqc-ne b qc s = raise_hqc-ne s.hqc b qc s

  -- What the search finds is in the queue, and stored, and a child of the block that was finished.
  pub record Found (s : HotStuffCore C) (parent : ℕ) (hs : List ℕ) (h b : ℕ) : Type 0 where
    pub waiting : contains h hs ≡ true
    pub stored : Storage.find_blk s.storage h ≡ some b
    pub child : is_child_of parent (at s b).parent_hashes ≡ ok true

  or_else-Found :
      (s : HotStuffCore C) (parent x c : ℕ) (hs : List ℕ) (h b : ℕ) (r : Result Bool)
      (rest : Result (Option (ℕ × ℕ)))
      → Storage.find_blk s.storage x ≡ some c
      → is_child_of parent (at s c).parent_hashes ≡ r
      → (rest ≡ ok (some (h, b)) → Found s parent hs h b)
      → or_else x c r rest ≡ ok (some (h, b))
      → Found s parent (x ∷ hs) h b
  unfolding contains
  or_else-Found s parent x c hs h b (err e) rest found child ih k = absurd (ground arith)
  or_else-Found s parent x c hs h b (ok false) rest found child ih k =
      let f = ih k in
      record { waiting = ground (arith, f.waiting); stored = f.stored; child = f.child }
  or_else-Found s parent x c hs h b (ok true) rest found child ih k =
      let same_h : x ≡ h = ground arith in
      let same_b : c ≡ b = ground arith in
      record {
        waiting = ground arith;
        stored = ap (Storage.find_blk s.storage) (sym same_h) ∙ found ∙ ap some same_b;
        child = ap (λ a. is_child_of parent (at s a).parent_hashes) (sym same_b) ∙ child;
      }

  look_at-Found :
      (s : HotStuffCore C) (parent x : ℕ) (o : Option ℕ) (hs : List ℕ) (h b : ℕ)
      (rest : Result (Option (ℕ × ℕ)))
      → Storage.find_blk s.storage x ≡ o
      → (rest ≡ ok (some (h, b)) → Found s parent hs h b)
      → look_at s parent x o rest ≡ ok (some (h, b))
      → Found s parent (x ∷ hs) h b
  look_at-Found s parent x none hs h b rest found ih k = absurd (ground arith)
  look_at-Found s parent x (some c) hs h b rest found ih k =
      or_else-Found s parent x c hs h b (is_child_of parent (at s c).parent_hashes) rest found refl
        ih k

  pub find_ready-Found :
      (s : HotStuffCore C) (parent : ℕ) (hs : List ℕ) (h b : ℕ)
      → find_ready s parent hs ≡ ok (some (h, b))
      → Found s parent hs h b
  unfolding find_ready
  find_ready-Found s parent [] h b e = absurd (ground arith)
  find_ready-Found s parent (x ∷ hs) h b e =
      look_at-Found s parent x (Storage.find_blk s.storage x) hs h b (find_ready s parent hs) refl
        (find_ready-Found s parent hs h b) e

  look_at-ne :
      (s : HotStuffCore C) (parent x : ℕ) (o : Option ℕ) (rest : Result (Option (ℕ × ℕ)))
      → rest ≢ err diverged
      → look_at s parent x o rest ≢ err diverged
  look_at-ne s parent x none rest ne = λ e. ground arith
  look_at-ne s parent x (some b) rest ne = go (at s b).parent_hashes
    where
      go : (ps : List ℕ) → or_else x b (is_child_of parent ps) rest ≢ err diverged
      go [] = λ e. ground arith
      go (p ∷ ps) = elim (Bool-cases (p == parent)) [
        | inl same ↦ rw same (λ e. ground arith)
        | inr other ↦ rw other ne
      ]

  find_ready-ne :
      (s : HotStuffCore C) (parent : ℕ) (hs : List ℕ) → find_ready s parent hs ≢ err diverged
  unfolding find_ready
  find_ready-ne s parent [] = λ e. ground arith
  find_ready-ne s parent (x ∷ hs) =
      look_at-ne s parent x (Storage.find_blk s.storage x) (find_ready s parent hs)
        (find_ready-ne s parent hs)

  abbrev pub without : ℕ → HotStuffCore C → HotStuffCore C
  without h s = record s {
    rdy_queue = remove_first h s.rdy_queue;
    piped_queue = remove_first h s.piped_queue;
  }

  -- What holds after a round: it holds after an error at the start, and after `update_hqc` throws or
  -- is followed by `on_qc_finish`.
  pub finish_ready-rule :
      (P : Result (Unit {0}) × HotStuffCore C → Type 0) (h b : ℕ) (s : HotStuffCore C)
      → P (err undefined, s)
      → ((r : Result (Unit {0})) (u : HotStuffCore C)
          → update_hqc b (at s b).self_qc (without h s) ≡ (r, u)
          → P (continue (r, u) (λ _ v. (ok (tt {0}), on_qc_finish b v))))
      → P (finish_ready h b s)
  finish_ready-rule P h b s missing went = elim (Bool-cases (contains h s.piped_queue)) [
    | inl there ↦ rw there (went _ _ refl)
    | inr not_there ↦ rw not_there missing
  ]

  Shorter : HotStuffCore C → Result (Unit {0}) × HotStuffCore C → Type 0
  Shorter s (ok _, t) = length t.rdy_queue + 1 ≡ length s.rdy_queue
  Shorter s (err e, t) = e ≢ diverged

  finish_ready-Shorter :
      (h b : ℕ) (s : HotStuffCore C)
      → contains h s.rdy_queue ≡ true
      → Shorter s (finish_ready h b s)
  unfolding Shorter
  finish_ready-Shorter h b s there = finish_ready-rule (Shorter s) h b s (λ e. cc) λ r u e. go r u e
    where
      go :
          (r : Result (Unit {0})) (u : HotStuffCore C)
          → update_hqc b (at s b).self_qc (without h s) ≡ (r, u)
          → Shorter s (continue (r, u) (λ _ v. (ok (tt {0}), on_qc_finish b v)))
      go (err x) u e =
          λ same. update_hqc-ne b (at s b).self_qc (without h s) (ap (λ p. p.0) e ∙ ap err same)
      go (ok y) u e =
          let first : u.rdy_queue ≡ remove_first h s.rdy_queue =
            ap (λ p. p.1.rdy_queue) (sym e)
            ∙ (update_hqc-Frame b (at s b).self_qc (without h s)).rdy in
          ap (λ xs. length xs + 1) ((on_qc_finish-Frame b u).rdy ∙ first)
          ∙ length-remove_first h s.rdy_queue there

  Ends : Result (Unit {0}) × HotStuffCore C → Type 0
  Ends r = r.0 ≢ err diverged

  resolve_found-Ends :
      (fuel parent : ℕ) (s : HotStuffCore C) (r : Result (Option (ℕ × ℕ)))
      (k : ℕ → Exec (HotStuffCore C) (Unit {0}))
      → find_ready s parent s.rdy_queue ≡ r
      → length s.rdy_queue < suc fuel
      → ((b : ℕ) (t : HotStuffCore C) → length t.rdy_queue < fuel → Ends (k b t))
      → Ends (resolve_found r k s)
  unfolding Ends Shorter
  resolve_found-Ends fuel parent s (err e) k found fits ih =
      λ same. find_ready-ne s parent s.rdy_queue (found ∙ ap err (ground arith))
  resolve_found-Ends fuel parent s (ok none) k found fits ih = λ e. ground arith
  resolve_found-Ends fuel parent s (ok (some (h, b))) k found fits ih =
      let f = find_ready-Found s parent s.rdy_queue h b found in
      let shorter = finish_ready-Shorter h b s f.waiting in
      bind-rule Ends (finish_ready h b) (λ _. k b) s
        (λ x t e same. subst (Shorter s) e shorter (ground arith))
        λ y t e. ih b t (let less = subst (Shorter s) e shorter in omega arith)

  -- The loop ends: with more fuel than hashes wait in `rdy_queue`, it does not run out.
  pub resolve_ready-terminates :
      (fuel b : ℕ) (s : HotStuffCore C)
      → length s.rdy_queue < fuel
      → (resolve_ready fuel b s).0 ≢ err diverged
  unfolding resolve_ready Ends
  resolve_ready-terminates zero b s fits = absurd (omega arith)
  resolve_ready-terminates (suc fuel) b s fits =
      resolve_found-Ends fuel (at s b).hash s (find_ready s (at s b).hash s.rdy_queue)
        (resolve_ready fuel) refl fits (λ c t less. resolve_ready-terminates fuel c t less)
