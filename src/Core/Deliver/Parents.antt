-- ===== src/Core/Deliver/Parents.antt =====
-- The loop of `on_deliver_blk` that links the parents.
use mathlib.Core.Path.{fun_ext}
use mathlib.Core.List.{append-nil, append_assoc}
use kauri_public.Base.{
  ℕ, ◌≡◌, ◌≢◌, refl, sym, ◌∙◌, ap, subst, ◌⊎◌, inl, inr, true, Option, none, some, List, [], ◌∷◌,
  ◌++◌, arith, ==_refl, contains, Bool-cases, All,
}
use kauri_public.Base.Exec.{ok, continue, bind-eq-ok}
use kauri_public.Crypto.Scheme.{Scheme}
use kauri_public.Entity.Block.{Block}
use kauri_public.Entity.Storage
use kauri_public.Core.State.{HotStuffCore, at, set_blk, get_delivered_blk, must_be_delivered}
use kauri_public.Core.Deliver.{push_parent, deliver_parent, deliver_parents}

module _ {C : Scheme} where
  pub at-set_blk : (b : ℕ) (v : Block C) (s : HotStuffCore C) → at (set_blk b v s) b ≡ v
  unfolding set_blk Storage.write
  at-set_blk b v s = ground (arith, ==_refl b)

  pub at-set_blk_ne :
      (a b : ℕ) (v : Block C) (s : HotStuffCore C) → a ≢ b → at (set_blk b v s) a ≡ at s a
  unfolding set_blk Storage.write
  at-set_blk_ne a b v s h = ground arith

  pub set_blk-set_blk :
      (b : ℕ) (v w : Block C) (s : HotStuffCore C) → set_blk b w (set_blk b v s) ≡ set_blk b w s
  unfolding set_blk Storage.write
  set_blk-set_blk b v w s = ap with_cell (fun_ext λ a. ground arith)
    where
      with_cell : (ℕ → Block C) → HotStuffCore C
      with_cell cell = record s { heap = record (s.heap) { cell = cell } }

  -- A parent may be linked: it is piped, or it is stored and delivered.
  abbrev pub Linkable : HotStuffCore C → ℕ → Type 0
  Linkable s h =
      (contains h s.piped_queue ≡ true)
      ⊎ ((p : ℕ) × (Storage.find_blk s.storage h ≡ some p) × ((at s p).delivered ≡ true))

  abbrev pub with_parents : List (Option ℕ) → Block C → Block C
  with_parents ps v = record v { parents = v.parents ++ ps }

  must_be_delivered-ok :
      (o : Option ℕ) (s : HotStuffCore C) {p : ℕ} {t : HotStuffCore C}
      → must_be_delivered o s ≡ (ok p, t)
      → (o ≡ some p) × ((at s p).delivered ≡ true) × (t ≡ s)
  must_be_delivered-ok none s h = let e = ap (λ r. r.0) h in cc
  must_be_delivered-ok (some b) s {p} {t} h =
      let e = ap (λ r. r.0) h in
      let done : (at s b).delivered ≡ true = ground arith in
      let same : b ≡ p = ground arith in
      (ap some same, ap (λ a. (at s a).delivered) (sym same) ∙ done, sym (ap (λ r. r.1) h))

  get_delivered_blk-ok :
      (h : ℕ) (s : HotStuffCore C) {p : ℕ} {t : HotStuffCore C}
      → get_delivered_blk h s ≡ (ok p, t)
      → (Storage.find_blk s.storage h ≡ some p) × ((at s p).delivered ≡ true) × (t ≡ s)
  unfolding get_delivered_blk
  get_delivered_blk-ok h s e = must_be_delivered-ok (Storage.find_blk s.storage h) s e

  deliver_parent-ok :
      (b h : ℕ) (s : HotStuffCore C) {t : HotStuffCore C}
      → deliver_parent b h s ≡ (ok tt, t)
      → (t ≡ push_parent b (Storage.find_blk s.storage h) s) × Linkable s h
  unfolding deliver_parent
  deliver_parent-ok b h s {t} e = elim (Bool-cases (contains h s.piped_queue)) [
    | inl piped ↦ (sym (ap (λ r. r.1) (rw (piped, deliver_parent) at e)), inl piped)
    | inr not_piped ↦ stored (rw (not_piped, deliver_parent) at e)
  ]
    where
      stored :
          continue (get_delivered_blk h s) (λ p u. (ok tt, push_parent b (some p) u)) ≡ (ok tt, t)
          → (t ≡ push_parent b (Storage.find_blk s.storage h) s) × Linkable s h
      stored k =
          let (p, u, got, rest) =
            bind-eq-ok (get_delivered_blk h) (λ p u. (ok (tt {0}), push_parent b (some p) u)) s k in
          let (found, done, same) = get_delivered_blk-ok h s got in
          (sym (ap (λ r. r.1) rest) ∙ (rw (same, found) refl), inr (p, found, done))

  delivered-push_parent :
      (b a : ℕ) (p : Option ℕ) (s : HotStuffCore C)
      → (at (push_parent b p s) a).delivered ≡ (at s a).delivered
  unfolding push_parent set_blk Storage.write
  delivered-push_parent b a p s = ground arith

  Linkable-push_parent :
      (b h : ℕ) (p : Option ℕ) (s : HotStuffCore C) → Linkable (push_parent b p s) h → Linkable s h
  unfolding push_parent set_blk
  Linkable-push_parent b h p s (inl piped) = inl piped
  Linkable-push_parent b h p s (inr (q, found, done)) =
      inr (q, found, sym (delivered-push_parent b q p s) ∙ done)

  All-Linkable :
      (b : ℕ) (p : Option ℕ) (s : HotStuffCore C) (hs : List ℕ)
      → All (Linkable (push_parent b p s)) hs
      → All (Linkable s) hs
  All-Linkable b p s [] k = tt
  All-Linkable b p s (h ∷ hs) k = (Linkable-push_parent b h p s k.0, All-Linkable b p s hs k.1)

  abbrev pub found_all : HotStuffCore C → List ℕ → List (Option ℕ)
  found_all s [] = []
  found_all s (h ∷ hs) = Storage.find_blk s.storage h ∷ found_all s hs

  same-blk : (b : ℕ) (s : HotStuffCore C) → set_blk b (with_parents [] (at s b)) s ≡ s
  unfolding set_blk Storage.write
  same-blk b s = rw append-nil (ap with_cell (fun_ext λ a. ground arith))
    where
      with_cell : (ℕ → Block C) → HotStuffCore C
      with_cell cell = record s { heap = record (s.heap) { cell = cell } }

  found_all-push_parent :
      (b : ℕ) (p : Option ℕ) (s : HotStuffCore C) (hs : List ℕ)
      → found_all (push_parent b p s) hs ≡ found_all s hs
  unfolding push_parent set_blk
  found_all-push_parent b p s [] = refl
  found_all-push_parent b p s (h ∷ hs) =
      ap (◌∷◌ (Storage.find_blk s.storage h)) (found_all-push_parent b p s hs)

  push_then_set :
      (b : ℕ) (p : Option ℕ) (hs : List ℕ) (s : HotStuffCore C)
      → (let v = push_parent b p s in set_blk b (with_parents (found_all v hs) (at v b)) v)
        ≡ set_blk b (with_parents (p ∷ found_all s hs) (at s b)) s
  unfolding push_parent
  push_then_set b p hs s =
      let u : HotStuffCore C = push_parent b p s in
      ap (λ xs. set_blk b (with_parents xs (at u b)) u) (found_all-push_parent b p s hs)
      ∙ ap (λ v. set_blk b (with_parents (found_all s hs) v) u)
          (at-set_blk b (with_parents (p ∷ []) (at s b)) s)
      ∙ set_blk-set_blk b (with_parents (p ∷ []) (at s b)) _ s
      ∙ ap (λ xs. set_blk b (record (at s b) { parents = xs }) s)
          (append_assoc (at s b).parents (p ∷ []) (found_all s hs))

  pub deliver_parents-ok :
      (b : ℕ) (hs : List ℕ) (s : HotStuffCore C) {t : HotStuffCore C}
      → deliver_parents b hs s ≡ (ok tt, t)
      → (t ≡ set_blk b (with_parents (found_all s hs) (at s b)) s) × All (Linkable s) hs
  unfolding deliver_parents
  deliver_parents-ok b [] s e = (sym (ap (λ r. r.1) e) ∙ sym (same-blk b s), tt)
  deliver_parents-ok b (h ∷ hs) s {t} e =
      let (x, u, first, rest) = bind-eq-ok (deliver_parent b h) (λ _. deliver_parents b hs) s e in
      let (u_eq, ready) = deliver_parent-ok b h s first in
      let (t_eq, all_ready) = deliver_parents-ok b hs u rest in
      (
        t_eq
            ∙ ap (λ v. set_blk b (with_parents (found_all v hs) (at v b)) v) u_eq
            ∙ push_then_set b (Storage.find_blk s.storage h) hs s,
        (
          ready,
          All-Linkable b (Storage.find_blk s.storage h) s hs
              (subst (λ v. All (Linkable v) hs) u_eq all_ready),
        ),
      )
