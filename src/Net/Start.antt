-- ===== src/Net/Start.antt =====
-- What `HotStuffBase::start` keeps of the tree: its parent, its children, and `numberOfChildren`, which
-- `has_subtree` compares with.
use kauri_public.Base.{ℕ, Option, none, some, length}
use kauri_public.Base.Exec.{Result, ok, err, Exec}
use kauri_public.Crypto.Scheme.{Scheme}
use kauri_public.Net.State.{HotStuffBase}
use kauri_public.Net.Tree.{Links, Loop, start_tree}

module _ {C : Scheme} where
  abbrev with_parent : Option ℕ → HotStuffBase C → HotStuffBase C
  with_parent none s = s
  with_parent (some p) s = record s { parent_peer = p }

  abbrev pub keep_links : Links → HotStuffBase C → HotStuffBase C
  keep_links l s = record (with_parent l.parent_peer s) {
    child_peers = l.child_peers;
    number_of_children = length l.children;
  }

  abbrev kept_links : Result (Loop Links) → Exec (HotStuffBase C) (Unit {0})
  kept_links (err e) s = (err e, s)
  kept_links (ok t) s = (ok tt, keep_links t.out s)

  -- The loops, for `size` replicas with the peers `peer`, and then `numberOfChildren = children.size()`.
  unfoldable pub start : (ℕ → ℕ) → ℕ → Exec (HotStuffBase C) (Unit {0})
  unfolding start_tree
  start peer size s =
      kept_links (start_tree s.core.id peer size s.core.config.fanout (some s.parent_peer)) s
