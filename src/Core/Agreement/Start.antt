-- ===== src/Core/Agreement/Start.antt =====
-- A replica after the constructor, `add_replica` and `on_init` of src/consensus.cpp.
use kauri_public.Base.{
  ℕ, ◌≡◌, refl, sym, ◌∙◌, ap, subst, inl, inr, some_injective, true, false, some, List, [], ◌∷◌,
  arith, ◌==◌, ==_iff, ==_refl, Bool-cases,
}
use kauri_public.Crypto.Scheme.{Scheme}
use kauri_public.Entity.Block.{bare_block}
use kauri_public.Entity.Storage
use kauri_public.Core.State.{HotStuffCore, at, set_blk}
use kauri_public.Core.Setup.{Unset, new_core, add_replica, on_init}
use kauri_public.Core.Update.{decided}
use kauri_public.Core.Update.Order.{committed}
use kauri_public.Core.Agreement.Tree.{Tree, IsTree}
use kauri_public.Core.Agreement.Memory.{Agrees}
use kauri_public.Core.Agreement.Calls.{Begins}
use kauri_public.Core.Agreement.Memory.{hash_of}
use kauri_public.Entity.Block.{first_of_list}
use kauri_public.Base.Exec.{ok}

abbrev pub genesis_hash : Scheme → ℕ
genesis_hash C = C.block_hash [] [] C.dummy []

no_parent : (p : ℕ) → first_of_list [] ≡ ok (some p) → ⊥
no_parent p e = ground arith

module _ {C : Scheme} where
  -- The replicas that are added, each with its peer and its key.
  unfoldable pub add_replicas : List (ℕ × ℕ × C.PubKey) → HotStuffCore C → HotStuffCore C
  unfolding add_replica
  add_replicas [] s = s
  add_replicas ((rid, peer, key) ∷ rs) s = add_replicas rs (add_replica rid peer key s)

  -- Only the first block is in memory.
  record IsFirst (s : HotStuffCore C) : Type 0 where
    hash : (at s s.b0).hash ≡ genesis_hash C
    height : (at s s.b0).height ≡ 0
    parents : (at s s.b0).parents ≡ []
    delivered : (at s s.b0).delivered ≡ true
    others :
        (a : ℕ)
        → (a == s.b0) ≡ false
        → ((at s a).delivered ≡ false) × (decided (at s a).decision ≡ false)
    lock : s.b_lock ≡ s.b0
    silent : s.outbox ≡ []

  new_core-IsFirst :
      (id : ℕ) (key : C.PrivKey) (unset : Unset) (clock : ℕ → ℕ)
      → IsFirst (new_core id key unset clock)
  unfolding new_core bare_block
  new_core-IsFirst id key unset clock = record {
    hash = refl;
    height = refl;
    parents = refl;
    delivered = refl;
    others = λ a other. (other, rw other refl);
    lock = refl;
    silent = refl;
  }

  add_replica-IsFirst :
      (rid peer : ℕ) (key : C.PubKey) (s : HotStuffCore C)
      → IsFirst s
      → IsFirst (add_replica rid peer key s)
  unfolding add_replica set_blk Storage.write
  add_replica-IsFirst rid peer key s h =
      let self = ==_refl s.b0 in
      record {
        hash = rw self h.hash;
        height = rw self h.height;
        parents = rw self h.parents;
        delivered = rw self h.delivered;
        others = λ a other. rw other (h.others a other);
        lock = h.lock;
        silent = h.silent;
      }

  add_replicas-IsFirst :
      (rs : List (ℕ × ℕ × C.PubKey)) (s : HotStuffCore C) → IsFirst s → IsFirst (add_replicas rs s)
  unfolding add_replicas
  add_replicas-IsFirst [] s h = h
  add_replicas-IsFirst ((rid, peer, key) ∷ rs) s h =
      add_replicas-IsFirst rs (add_replica rid peer key s) (add_replica-IsFirst rid peer key s h)

  on_init-IsFirst :
      (nfaulty : ℕ) (s : HotStuffCore C)
      → IsFirst s
      → IsFirst (on_init nfaulty s) × ((at (on_init nfaulty s) s.b0).qc_ref ≡ some s.b0)
  unfolding on_init set_blk Storage.write
  on_init-IsFirst nfaulty s h =
      let self = ==_refl s.b0 in
      (
        record {
          hash = rw self h.hash;
          height = rw self h.height;
          parents = rw self h.parents;
          delivered = rw self h.delivered;
          others = λ a other. rw other (h.others a other);
          lock = h.lock;
          silent = h.silent;
        },
        rw self refl,
      )

  module _ (T : Tree) (tree : IsTree T) where
    only_first : (s : HotStuffCore C) (a : ℕ) → IsFirst s → (at s a).delivered ≡ true → a ≡ s.b0
    only_first s a h d = elim (Bool-cases (a == s.b0)) [
      | inl same ↦ (==_iff a s.b0).0 same
      | inr other ↦ absurd (ground (arith, (h.others a other).0))
    ]

    first-Agrees :
        (s : HotStuffCore C)
        → T.genesis ≡ genesis_hash C
        → T.ref T.genesis ≡ some T.genesis
        → IsFirst s
        → (at s s.b0).qc_ref ≡ some s.b0
        → Agrees T s.heap.cell
    first-Agrees s g r h q =
        let root : (at s s.b0).hash ≡ T.genesis = h.hash ∙ sym g in
        record {
          height = λ b d.
              subst (λ c. T.height (at s c).hash ≡ (at s c).height) (sym (only_first s b h d))
                (ap T.height root ∙ tree.root ∙ sym h.height);
          parent = λ b p d up.
              let e =
                ap (λ c. first_of_list (at s c).parents) (only_first s b h d)
                ∙ ap first_of_list h.parents in
              absurd (no_parent p (sym e ∙ up));
          ref = λ b d.
              subst (λ c. T.ref (at s c).hash ≡ hash_of s.heap.cell (at s c).qc_ref)
                (sym (only_first s b h d))
                (ap T.ref root ∙ r ∙ ap some (sym root) ∙ sym (ap (hash_of s.heap.cell) q));
          ref_in = λ b c d up.
              let e = sym q ∙ ap (λ x. (at s x).qc_ref) (sym (only_first s b h d)) ∙ up in
              subst (λ x. (at s x).delivered ≡ true) (some_injective s.b0 c e) h.delivered;
        }

    begun :
        (s : HotStuffCore C)
        → T.genesis ≡ genesis_hash C
        → IsFirst s
        → Agrees T s.heap.cell
        → Begins T s
    unfolding committed
    begun s g h ag =
        let root : (at s s.b0).hash ≡ T.genesis = h.hash ∙ sym g in
        let lock : (at s s.b_lock).hash ≡ T.genesis = ap (λ b. (at s b).hash) h.lock ∙ root in
        record {
          memory = ag;
          sound = record {
            lock_in = subst (λ b. (at s b).delivered ≡ true) (sym h.lock) h.delivered;
            cert = inl lock;
            old = λ b d. elim (Bool-cases (b == s.b0)) [
              | inl same ↦
                  let e = (==_iff b s.b0).0 same in
                  (
                    subst (λ c. (at s c).delivered ≡ true) (sym e) h.delivered,
                    omega (
                      arith,
                      ap (λ c. T.height (at s c).hash) e,
                      ap T.height root,
                      ap T.height lock,
                    ),
                  )
              | inr other ↦ absurd (ground (arith, (h.others b other).1))
            ];
          };
          nothing = ap committed h.silent;
        }

    -- After the constructor, any replicas that are added and `on_init`, a replica begins as the
    -- agreement asks, if the tree starts at the first block and that is certified by itself.
    pub on_init-Begins :
        (id : ℕ) (key : C.PrivKey) (unset : Unset) (clock : ℕ → ℕ) (rs : List (ℕ × ℕ × C.PubKey))
        (nfaulty : ℕ)
        → T.genesis ≡ genesis_hash C
        → T.ref T.genesis ≡ some T.genesis
        → Begins T (on_init nfaulty (add_replicas rs (new_core id key unset clock)))
    unfolding on_init add_replicas
    on_init-Begins id key unset clock rs nfaulty g r =
        let u = add_replicas rs (new_core id key unset clock) in
        let s = on_init nfaulty u in
        let (h, q) = on_init-IsFirst nfaulty u (
          add_replicas-IsFirst rs (new_core id key unset clock)
            (new_core-IsFirst id key unset clock)) in
        begun s g h (first-Agrees s g r h q)
