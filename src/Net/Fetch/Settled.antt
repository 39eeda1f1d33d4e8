-- ===== src/Net/Fetch/Settled.antt =====
-- When the promise that a block is delivered is resolved.
use kauri_public.Base.{
  ℕ, ◌≡◌, refl, sym, ◌∙◌, ap, inl, inr, Bool, true, false, [], ◌∷◌, ◌++◌, ◌==◌, ==_refl, Bool-cases,
  contains, contains-set_erase, if◌then◌else◌,
}
use kauri_public.Base.Exec.{Result, ok, err}
use kauri_public.Crypto.Scheme.{Scheme}
use kauri_public.Core.State.{HotStuffCore, at}
use kauri_public.Core.Deliver.{on_deliver_blk}
use kauri_public.Core.Deliver.Done.{Delivered, on_deliver_blk-Delivered}
use kauri_public.Net.Fetch.{Fetch, all_delivered, count, settle, settled, deliver_fetched, when_all}

module _ {C : Scheme} where
  -- No promise is settled; or the one for the block's hash is, which waited. Then the certificate was
  -- good and all parents were delivered, and `valid` is the answer of the core, which has linked the
  -- block if that is true.
  pub data Settles (s : Fetch C) (b : ℕ) (verdict : Result Bool) (t : Fetch C) : Type 0 where
    none_settled :
        t.delivered_for ≡ s.delivered_for
        → t.blk_delivery_waiting ≡ s.blk_delivery_waiting
        → Settles s b verdict t
    one_settled :
        (valid : Bool)
        → verdict ≡ ok true
        → all_delivered s.core (at s.core b).parent_hashes ≡ true
        → on_deliver_blk b s.core ≡ (ok valid, t.core)
        → (valid ≡ true → Delivered s.core t.core b)
        → contains (at s.core b).hash s.blk_delivery_waiting ≡ true
        → t.delivered_for ≡ s.delivered_for ++ ((at s.core b).hash, valid) ∷ []
        → contains (at s.core b).hash t.blk_delivery_waiting ≡ false
        → Settles s b verdict t

  record Counted (s : Fetch C) (c : HotStuffCore C) (t : Fetch C) : Type 0 where
    core : t.core ≡ c
    done : t.delivered_for ≡ s.delivered_for
    waiting : t.blk_delivery_waiting ≡ s.blk_delivery_waiting

  count-Counted :
      (b : ℕ) (valid : Bool) (s : Fetch C) (c : HotStuffCore C)
      → Counted s c (count b valid (record s { core = c }))
  count-Counted b false s c = record { core = refl; done = refl; waiting = refl }
  count-Counted b true s c = record { core = refl; done = refl; waiting = refl }

  settled-Settles :
      (s u : Fetch C) (b : ℕ) (verdict : Result Bool) (c : HotStuffCore C) (valid : Bool)
      → verdict ≡ ok true
      → all_delivered s.core (at s.core b).parent_hashes ≡ true
      → on_deliver_blk b s.core ≡ (ok valid, c)
      → Counted s c u
      → Settles s b verdict (settle (at s.core b).hash valid u).1
  settled-Settles s u b verdict c valid good ready run k =
      elim (Bool-cases (contains (at s.core b).hash u.blk_delivery_waiting)) [
        | inl there ↦ rw there (
            one_settled valid good ready (run ∙ ap (λ d. (ok valid, d)) (sym k.core))
              (λ yes_valid.
                on_deliver_blk-Delivered b s.core u.core
                  (run ∙ ap (λ d. (ok valid, d)) (sym k.core) ∙ ap (λ v. (ok v, u.core)) yes_valid))
              (ap (contains (at s.core b).hash) (sym k.waiting) ∙ there)
              (ap (λ xs. xs ++ ((at s.core b).hash, valid) ∷ []) k.done)
              (contains-set_erase (at s.core b).hash (at s.core b).hash u.blk_delivery_waiting
                ∙ erased (at s.core b).hash (contains (at s.core b).hash u.blk_delivery_waiting)))
        | inr away ↦ rw away (none_settled k.done k.waiting)
      ]
    where
      erased : (h : ℕ) (d : Bool) → (if h == h then false else d) ≡ false
      erased h d = ap (λ e. if e then false else d) (==_refl h)

  deliver_fetched-Settles :
      (s : Fetch C) (b : ℕ) (r : Result Bool × HotStuffCore C)
      → all_delivered s.core (at s.core b).parent_hashes ≡ true
      → on_deliver_blk b s.core ≡ r
      → Settles s b (ok true) (settled b (at s.core b).hash r s).1
  deliver_fetched-Settles s b (err e, c) ready run = none_settled refl refl
  deliver_fetched-Settles s b (ok valid, c) ready run =
      settled-Settles s (count b valid (record s { core = c })) b (ok true) c valid refl ready run
        (count-Counted b valid s c)

  -- Whatever the verdict on a block's certificate: when all of its promises are resolved, no promise
  -- for a delivery is settled, or just the one for the block's hash, which waited and waits no more. Then
  -- the certificate was good, all parents were delivered, and the promise is resolved if the core
  -- has delivered the block, linked to its parents, and rejected if not.
  pub when_all-Settles :
      (b : ℕ) (verdict : Result Bool) (s : Fetch C) → Settles s b verdict (when_all b verdict s).1
  unfolding deliver_fetched
  when_all-Settles b (err e) s = none_settled refl refl
  when_all-Settles b (ok false) s = none_settled refl refl
  when_all-Settles b (ok true) s =
      elim (Bool-cases (all_delivered s.core (at s.core b).parent_hashes)) [
        | inl ready ↦ rw ready (deliver_fetched-Settles s b (on_deliver_blk b s.core) ready refl)
        | inr early ↦ rw early (none_settled refl refl)
      ]
