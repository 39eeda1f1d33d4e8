-- ===== src/Net/Tree.antt =====
-- The loops of `HotStuffBase::start` that lay the replicas out as a tree.
pub mod Spans
pub mod Change
pub mod Parent
use kauri_public.Base.{
  ℕ, zero, suc, ◌+◌, ◌-◌, ◌*◌, ◌/◌, min, Bool, true, false, Option, none, some, List, [], leb, ◌==◌,
  contains, set_insert, if◌then◌else◌,
}
use kauri_public.Base.Exec.{Result, ok, err, diverged, undefined}

-- What a replica keeps of the tree. A peer is a number.
pub record Links : Type 0 where
  pub children : List ℕ
  pub child_peers : List ℕ
  pub parent_peer : Option ℕ

-- The body of the innermost loop, for the edge from `i` to `j`, at the replica `id`.
unfoldable pub link : ℕ → (ℕ → ℕ) → ℕ → ℕ → Links → Links
link id peer i j l =
    if id == i
    then record l {
      children = set_insert j l.children;
      child_peers = set_insert (peer j) l.child_peers;
    }
    else if id == j
    then record l { parent_peer = some (peer i) }
    else if contains (peer i) l.child_peers
    then record l { children = set_insert j l.children }
    else l

-- `out` is what the innermost body changes.
pub record Loop (S : Type 0) : Type 0 where
  pub i : ℕ
  pub start : ℕ
  pub done : Bool
  pub out : S

module _ (size fanout : ℕ) {S : Type 0} (visit : ℕ → ℕ → S → S) where
  -- for (size_t j = start; j < start + curr_fanout; j++), with `k` rounds left
  unfoldable pub for_children : ℕ → ℕ → Loop S → Loop S
  for_children zero j t = t
  for_children (suc k) j t =
      let rest = for_children k (j + 1) (record t { out = visit t.i j t.out }) in
      if leb size j then record t { done = true } else rest

  -- `replicas[i]` after `i++` is out of range where `i` is the last replica.
  abbrev pub next_parent : ℕ → Loop S → Result (Loop S)
  next_parent curr t =
      if leb size (t.i + 1)
      then err undefined
      else ok (record t { i = t.i + 1; start = t.start + curr })

  abbrev pub and_then : Result (Loop S) → (Loop S → Result (Loop S)) → Result (Loop S)
  and_then (err e) f = err e
  and_then (ok t) f = f t

  -- for (auto counter = 1; counter <= processesOnLevel; counter++), with `k` rounds left
  unfoldable pub for_parents : ℕ → ℕ → Loop S → Result (Loop S)
  unfolding for_children
  for_parents curr zero t = ok t
  for_parents curr (suc k) t =
      let rest = and_then (next_parent curr (for_children curr t.start t)) (for_parents curr k) in
      if t.done then ok t else rest

  -- `ceil` is given the quotient of two integers, and so does nothing.
  abbrev pub curr_fanout : ℕ → ℕ → ℕ
  curr_fanout processes i = min ((size - i) / processes) fanout

  -- while (i < size); a level of no processes divides by zero
  unfoldable pub levels : ℕ → ℕ → Loop S → Result (Loop S)
  unfolding for_parents
  levels zero processes t = err diverged
  levels (suc fuel) processes t =
      let curr = curr_fanout processes t.i in
      let rest =
        and_then (for_parents curr processes (record t { start = t.i + processes }))
          (levels fuel (min (curr * processes) (size - t.i))) in
      if leb size t.i
      then ok t
      else if t.done
      then ok t
      else if processes == 0
      then err undefined
      else rest

  unfoldable pub lay_out : S → Result (Loop S)
  unfolding levels
  lay_out out = levels (size + 1) 1 (record { i = 0; start = 0; done = false; out = out })

-- The tree as the replica `id` records it; the peers of its children were cleared before.
unfoldable pub start_tree : ℕ → (ℕ → ℕ) → ℕ → ℕ → Option ℕ → Result (Loop Links)
unfolding lay_out link
start_tree id peer size fanout old_parent =
    lay_out size fanout (link id peer)
      (record { children = []; child_peers = []; parent_peer = old_parent })
