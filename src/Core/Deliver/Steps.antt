-- ===== src/Core/Deliver/Steps.antt =====
-- The steps of `on_deliver_blk` after the parents: height, certificate and times.
use mathlib.Core.Path.{fun_ext}
use kauri_public.Base.{
  ℕ, ◌≡◌, refl, sym, ◌∙◌, ap, inl, inr, Option, none, some, arith, ltb, add32, Bool-cases,
}
use kauri_public.Base.Exec.{Result, ok, err, continue}
use kauri_public.Crypto.Scheme.{Scheme}
use kauri_public.Entity.Block.{Block, first_of_list}
use kauri_public.Entity.Storage
use kauri_public.Core.State.{HotStuffCore, at, set_blk}
use kauri_public.Core.Deliver.{set_height, set_qc_ref, record_time, pointer, fetched_or_throw}

module _ {C : Scheme} where
  same_blk : (b : ℕ) (s : HotStuffCore C) → set_blk b (at s b) s ≡ s
  unfolding set_blk Storage.write
  same_blk b s = ap with_cell (fun_ext λ a. ground arith)
    where
      with_cell : (ℕ → Block C) → HotStuffCore C
      with_cell cell = record s { heap = record (s.heap) { cell = cell } }

  abbrev pub with_height : ℕ → Block C → Block C
  with_height h v = record v { height = h }

  abbrev pub with_qc_ref : Option ℕ → Block C → Block C
  with_qc_ref r v = record v { qc_ref = r }

  first_then :
      (b : ℕ) (r : Result (Option ℕ)) (s : HotStuffCore C) {t : HotStuffCore C}
      → continue
          (r, s)
          (λ first u.
            continue
              (pointer first u)
              λ p w. (ok (tt {0}), set_blk b (with_height (add32 (at w p).height 1) (at w b)) w))
        ≡ (ok tt, t)
      → (p : ℕ) × (r ≡ ok (some p))
        × (t ≡ set_blk b (with_height (add32 (at s p).height 1) (at s b)) s)
  first_then b (err e) s h = let k = ap (λ r. r.0) h in absurd (ground arith)
  first_then b (ok none) s h = let k = ap (λ r. r.0) h in absurd (ground arith)
  first_then b (ok (some p)) s h = (p, refl, sym (ap (λ r. r.1) h))

  pub set_height-ok :
      (b : ℕ) (s : HotStuffCore C) {t : HotStuffCore C}
      → set_height b s ≡ (ok tt, t)
      → (p : ℕ) × (first_of_list (at s b).parents ≡ ok (some p))
        × (t ≡ set_blk b (with_height (add32 (at s p).height 1) (at s b)) s)
  unfolding set_height
  set_height-ok b s h = first_then b (first_of_list (at s b).parents) s h

  -- The block that a certificate is of; without one the reference stays.
  abbrev pub certified : Option C.QuorumCert → Option ℕ → HotStuffCore C → Option ℕ
  certified none old s = old
  certified (some qc) old s = Storage.find_blk s.storage (C.obj_hash qc)

  fetched_then :
      (b : ℕ) (r : Option ℕ) (s : HotStuffCore C) {t : HotStuffCore C}
      → continue
          (fetched_or_throw r s)
          (λ x u. (ok (tt {0}), set_blk b (with_qc_ref (some x) (at u b)) u))
        ≡ (ok tt, t)
      → t ≡ set_blk b (with_qc_ref r (at s b)) s
  fetched_then b none s h = let k = ap (λ r. r.0) h in absurd (ground arith)
  fetched_then b (some x) s h = sym (ap (λ r. r.1) h)

  pub set_qc_ref-ok :
      (b : ℕ) (qc : Option C.QuorumCert) (s : HotStuffCore C) {t : HotStuffCore C}
      → set_qc_ref b qc s ≡ (ok tt, t)
      → t ≡ set_blk b (with_qc_ref (certified qc (at s b).qc_ref s) (at s b)) s
  unfolding set_qc_ref
  set_qc_ref-ok b none s h = sym (ap (λ r. r.1) h) ∙ sym (same_blk b s)
  set_qc_ref-ok b (some qc) s h = fetched_then b (Storage.find_blk s.storage (C.obj_hash qc)) s h

  pub record_time-heap :
      (b : ℕ) (s : HotStuffCore C)
      → ((record_time b s).1.heap ≡ s.heap)
        × ((record_time b s).1.tails ≡ s.tails)
        × ((record_time b s).1.storage ≡ s.storage)
  unfolding record_time
  record_time-heap b s = elim (Bool-cases (ltb 50 (at s b).height)) [
    | inl late ↦ rw late (refl, refl, refl)
    | inr early ↦ rw early (refl, refl, refl)
  ]
