-- ===== src/Net/Fetch/Asked.antt =====
-- Which replicas are asked for a block.
use kauri_public.Base.{
  ℕ, ◌≡◌, refl, sym, ◌∙◌, ap, subst, inl, inr, true, false, ◌&&◌, Option, none, some, List, [], ◌∷◌,
  ◌++◌, arith, ◌==◌, ==_refl, Bool-cases, length, contains, set_insert, if◌then◌else◌,
}
use mathlib.Core.List.{append_assoc, append-nil}
use kauri_public.Base.Maps
use kauri_public.Crypto.Scheme.{Scheme}
use kauri_public.Entity.Storage
use kauri_public.Net.Fetch.{
  Fetch, context, send, send_each, timeout_cb, add_replica, with_replica, async_fetch_blk,
}

abbrev to_each : ℕ → List ℕ → List (ℕ × ℕ)
to_each h [] = []
to_each h (r ∷ rs) = (h, r) ∷ to_each h rs

-- The replicas, in the order in which they were first named.
abbrev remembered : List ℕ → List ℕ → List ℕ
remembered known [] = known
remembered known (r ∷ rs) = remembered (set_insert r known) rs

grown : (r x : ℕ) (xs : List ℕ) → (ys : List ℕ) × (set_insert r (x ∷ xs) ≡ x ∷ ys)
unfolding set_insert
grown r x xs = elim (Bool-cases (contains r (x ∷ xs))) [
  | inl old ↦ (xs, rw old refl)
  | inr new ↦ (xs ++ r ∷ [], rw new refl)
]

module _ {C : Scheme} where
  -- The block is asked for with each of the replicas in turn.
  unfoldable pub ask_all : ℕ → List ℕ → Fetch C → Fetch C
  unfolding async_fetch_blk
  ask_all h [] s = s
  ask_all h (r ∷ rs) s = ask_all h rs (async_fetch_blk h (some r) true s)

  send_each-requests :
      (h : ℕ) (rs : List ℕ) (s : Fetch C) → (send_each h rs s).requests ≡ s.requests ++ to_each h rs
  unfolding send_each
  send_each-requests h [] s = sym (append-nil s.requests)
  send_each-requests h (r ∷ rs) s =
      send_each-requests h rs (send h r s) ∙ append_assoc s.requests ((h, r) ∷ []) (to_each h rs)

  record Asked (h : ℕ) (s : Fetch C) (replicas : List ℕ) (requests : List (ℕ × ℕ)) : Type 0 where
    absent : Storage.is_blk_fetched s.core.storage h ≡ false
    known : Maps.find h s.blk_fetch_waiting ≡ some replicas
    sent : s.requests ≡ requests

  async_fetch_blk-eq :
      (h r : ℕ) (o : Option (List ℕ)) (s : Fetch C)
      → Storage.is_blk_fetched s.core.storage h ≡ false
      → Maps.find h s.blk_fetch_waiting ≡ o
      → async_fetch_blk h (some r) true s ≡ add_replica h (context o) r true s
  unfolding async_fetch_blk Storage.is_blk_fetched
  async_fetch_blk-eq h r o s absent known =
      ap
        (λ d.
          if d
          then s
          else with_replica h (context (Maps.find h s.blk_fetch_waiting)) (some r) true s)
        absent
      ∙ ap (λ p. add_replica h (context p) r true s) known

  remember : ℕ → List ℕ → Fetch C → Fetch C
  remember h replicas s = record s { blk_fetch_waiting = Maps.put h replicas s.blk_fetch_waiting }

  add_replica-first :
      (h r : ℕ) (s : Fetch C)
      → add_replica h [] r true s ≡ remember h (set_insert r []) (send h r s)
  unfolding add_replica remember
  add_replica-first h r s = refl

  add_replica-later :
      (h r x : ℕ) (xs : List ℕ) (s : Fetch C)
      → add_replica h (x ∷ xs) r true s ≡ remember h (set_insert r (x ∷ xs)) s
  unfolding add_replica remember
  add_replica-later h r x xs s =
      ap (λ d. remember h (set_insert r (x ∷ xs)) (if d then send h r s else s)) asked
    where
      asked : length (x ∷ xs) == 0 && true ≡ false
      asked = ground arith

  remember-Asked :
      (h : ℕ) (replicas : List ℕ) (requests : List (ℕ × ℕ)) (s : Fetch C)
      → Storage.is_blk_fetched s.core.storage h ≡ false
      → s.requests ≡ requests
      → Asked h (remember h replicas s) replicas requests
  unfolding remember
  remember-Asked h replicas requests s absent sent = record {
    absent = absent;
    known = Maps.find-put h h replicas s.blk_fetch_waiting ∙ own;
    sent = sent;
  }
    where
      own : (if h == h then some replicas else Maps.find h s.blk_fetch_waiting) ≡ some replicas
      own = ap (λ d. if d then some replicas else Maps.find h s.blk_fetch_waiting) (==_refl h)

  ask_again :
      (h r x : ℕ) (xs : List ℕ) (requests : List (ℕ × ℕ)) (s : Fetch C)
      → Asked h s (x ∷ xs) requests
      → Asked h (async_fetch_blk h (some r) true s) (set_insert r (x ∷ xs)) requests
  ask_again h r x xs requests s k =
      subst (λ t. Asked h t (set_insert r (x ∷ xs)) requests)
        (sym (
          async_fetch_blk-eq h r (some (x ∷ xs)) s k.absent k.known ∙ add_replica-later h r x xs s))
        (remember-Asked h (set_insert r (x ∷ xs)) requests s k.absent k.sent)

  ask_all-Asked :
      (h x : ℕ) (xs rs : List ℕ) (requests : List (ℕ × ℕ)) (s : Fetch C)
      → Asked h s (x ∷ xs) requests
      → Asked h (ask_all h rs s) (remembered (x ∷ xs) rs) requests
  unfolding ask_all
  ask_all-Asked h x xs [] requests s k = k
  ask_all-Asked h x xs (r ∷ rs) requests s k =
      let (ys, same) = grown r x xs in
      let next = ask_again h r x xs requests s k in
      subst
        (λ zs.
          Asked h (ask_all h rs (async_fetch_blk h (some r) true s)) (remembered zs rs) requests)
        (sym same)
        (ask_all-Asked h x ys rs requests (async_fetch_blk h (some r) true s)
          (subst (λ zs. Asked h (async_fetch_blk h (some r) true s) zs requests) same next))

  timeout-requests :
      (h : ℕ) (replicas : List ℕ) (requests : List (ℕ × ℕ)) (s : Fetch C)
      → Asked h s replicas requests
      → (timeout_cb h s).requests ≡ requests ++ to_each h replicas
  unfolding timeout_cb
  timeout-requests h replicas requests s k =
      rw k.known (send_each-requests h replicas s ∙ ap (λ q. q ++ to_each h replicas) k.sent)

  -- A block that is not there and not waited for, asked for with the replicas `r ∷ rs` in turn: just
  -- one request is sent, to `r`; and when the timer fires, one more to each of the replicas, once to
  -- a replica that was named twice.
  pub ask_all-requests :
      (h r : ℕ) (rs : List ℕ) (s : Fetch C)
      → Storage.is_blk_fetched s.core.storage h ≡ false
      → Maps.find h s.blk_fetch_waiting ≡ none
      → let t = ask_all h (r ∷ rs) s in
        (t.requests ≡ s.requests ++ (h, r) ∷ [])
        × ((timeout_cb h t).requests
            ≡ (s.requests ++ (h, r) ∷ []) ++ to_each h (remembered (r ∷ []) rs))
  unfolding ask_all set_insert contains
  ask_all-requests h r rs s absent unknown =
      let first =
        subst (λ t. Asked h t (r ∷ []) (s.requests ++ (h, r) ∷ []))
          (sym (async_fetch_blk-eq h r none s absent unknown ∙ add_replica-first h r s))
          (remember-Asked h (r ∷ []) (s.requests ++ (h, r) ∷ []) (send h r s) absent refl) in
      let all =
        ask_all-Asked h r [] rs (s.requests ++ (h, r) ∷ []) (async_fetch_blk h (some r) true s)
          first in
      (
        all.sent,
        timeout-requests h (remembered (r ∷ []) rs) (s.requests ++ (h, r) ∷ [])
            (ask_all h (r ∷ rs) s) all,
      )
