-- ===== src/Net/Tree/Parent.antt =====
-- Parents and children agree in the tree of `start`.
use kauri_public.Base.{
  some_injective, ℕ, ◌+◌, ◌≤◌, ◌<◌, ◌≡◌, ◌≢◌, ◌↔◌, refl, sym, ◌∙◌, ap, subst, inl, inr, true, false,
  ◌||◌, ◌&&◌, Option, some, [], arith, ◌==◌, ==_iff, ==_refl, Bool-cases, contains,
  contains-set_insert,
}
use kauri_public.Base.Exec.{ok}
use kauri_public.Net.Tree.{Links, link, Loop, start_tree}
use kauri_public.Net.Tree.Spans.{lay_out-Spanned}
use kauri_public.Net.Tree.Change.{lay_out-image, image_of, image}

module _ (size : ℕ) (peer : ℕ → ℕ) (apart : (i j : ℕ) → peer i ≡ peer j → i ≡ j) (a b : ℕ) where
  -- What the replicas `a` and `b` have recorded once the edges to `1`, .., `n - 1` are laid out.
  record Agree (n : ℕ) (la lb : Links) : Type 0 where
    later : n ≤ b → contains (peer b) la.child_peers ≡ false
    parent : 0 < b → b < n → (p : ℕ) × (p < b) × (lb.parent_peer ≡ some (peer p))
    both :
        0 < b → b < n → (contains (peer b) la.child_peers ≡ true) ↔ (lb.parent_peer ≡ some (peer a))

  contains-link :
      (i j : ℕ) (l : Links)
      → contains (peer b) (link a peer i j l).child_peers
        ≡ ((a == i && peer j == peer b) || contains (peer b) l.child_peers)
  unfolding link
  contains-link i j l = ground (arith, contains-set_insert (peer b) (peer j) l.child_peers)

  contains-link_other :
      (i j : ℕ) (l : Links)
      → j ≢ b
      → contains (peer b) (link a peer i j l).child_peers ≡ contains (peer b) l.child_peers
  contains-link_other i j l ne = contains-link i j l ∙ (ground (arith, apart j b))

  parent-link_other :
      (i j : ℕ) (l : Links) → j ≢ b → (link b peer i j l).parent_peer ≡ l.parent_peer
  unfolding link
  parent-link_other i j l ne = ground arith

  parent-link_self : (i : ℕ) (l : Links) → i < b → (link b peer i b l).parent_peer ≡ some (peer i)
  unfolding link
  parent-link_self i l low = ground (arith, ==_refl b)

  contains-link_self :
      (i : ℕ) (l : Links)
      → contains (peer b) l.child_peers ≡ false
      → contains (peer b) (link a peer i b l).child_peers ≡ (a == i)
  contains-link_self i l none_yet = contains-link i b l ∙ (ground (arith, ==_refl (peer b)))

  Agree-link_self :
      (i : ℕ) (la lb : Links)
      → i < b
      → Agree b la lb
      → Agree (b + 1) (link a peer i b la) (link b peer i b lb)
  Agree-link_self i la lb low h =
      let set_parent = parent-link_self i lb low in
      let as_child = contains-link_self i la (h.later (omega arith)) in
      record {
        later = λ le. absurd (omega arith);
        parent = λ pos lt. (i, low, set_parent);
        both = λ pos lt. (
          λ e. set_parent ∙ ap (λ x. some (peer x)) (sym ((==_iff a i).0 (sym as_child ∙ e))),
          λ e.
              as_child ∙ (==_iff a i).1 (apart a i (sym (some_injective _ _ (sym set_parent ∙ e)))),
        );
      }

  Agree-link :
      (i j : ℕ) (la lb : Links)
      → i < j
      → Agree j la lb
      → Agree (j + 1) (link a peer i j la) (link b peer i j lb)
  Agree-link i j la lb low h = elim (Bool-cases (j == b)) [
    | inl at_b ↦
        let same : j ≡ b = (==_iff j b).0 at_b in
        subst (λ n. Agree (n + 1) (link a peer i n la) (link b peer i n lb)) (sym same)
          (Agree-link_self i la lb (omega arith) (subst (λ n. Agree n la lb) same h))
    | inr other ↦
        let ne : j ≢ b = λ e. ground arith in
        let same_parent = parent-link_other i j lb ne in
        let same_child = contains-link_other i j la ne in
        record {
          later = λ le. same_child ∙ h.later (omega arith);
          parent = λ pos lt.
              let (p, lower, e) = h.parent pos (omega arith) in (p, lower, same_parent ∙ e);
          both = λ pos lt. rw (same_child, same_parent) (h.both pos (omega arith));
        }
  ]

  -- Let `start` run at two replicas `a` and `b` of a system of two replicas or more and a fanout of
  -- two or more, with peers that differ, and let `b` not be the first. Both runs end without an
  -- error, `b` has the peer of a lower replica as its parent, and that is `a`'s peer just if `a` has
  -- the peer of `b` among its children.
  pub start_tree-parent :
      (fanout : ℕ) (old_a old_b : Option ℕ)
      → 2 ≤ size
      → 2 ≤ fanout
      → 0 < b
      → b < size
      → (ta : Loop Links) × (tb : Loop Links) × (start_tree a peer size fanout old_a ≡ ok ta)
        × (start_tree b peer size fanout old_b ≡ ok tb)
        × ((p : ℕ) × (p < b) × (tb.out.parent_peer ≡ some (peer p)))
        × ((contains (peer b) ta.out.child_peers ≡ true) ↔ (tb.out.parent_peer ≡ some (peer a)))
  unfolding start_tree contains
  start_tree-parent fanout old_a old_b many wide pos inside =
      let la : Links = record { children = []; child_peers = []; parent_peer = old_a } in
      let lb : Links = record { children = []; child_peers = []; parent_peer = old_b } in
      let visit : ℕ → ℕ → Links × Links → Links × Links =
        λ i j l. (link a peer i j l.0, link b peer i j l.1) in
      let start : Agree 1 la lb = record {
        later = λ le. refl;
        parent = λ zero_lt lt. absurd (omega arith);
        both = λ zero_lt lt. absurd (omega arith);
      } in
      let (u, run, agree) =
        lay_out-Spanned size fanout visit (λ n l. Agree n l.0 l.1)
          (λ i j l low lt h. Agree-link i j l.0 l.1 low h) many wide (la, lb) start in
      let at_a =
        lay_out-image size fanout visit (link a peer) (λ l. l.0) (λ i j l. refl) (la, lb) in
      let at_b =
        lay_out-image size fanout visit (link b peer) (λ l. l.1) (λ i j l. refl) (la, lb) in
      (
        image size fanout visit (link a peer) (λ l. l.0) (λ i j l. refl) u,
        image size fanout visit (link b peer) (λ l. l.1) (λ i j l. refl) u,
        at_a ∙ ap (image_of size fanout visit (link a peer) (λ l. l.0) (λ i j l. refl)) run,
        at_b ∙ ap (image_of size fanout visit (link b peer) (λ l. l.1) (λ i j l. refl)) run,
        agree.parent pos inside,
        agree.both pos inside,
      )
