-- ===== src/Net/Tree/Change.antt =====
-- The loops of `start` run alike whatever the innermost body does.
use kauri_public.Base.{
  ℕ, zero, suc, ◌+◌, ◌-◌, ◌*◌, ◌≡◌, min, refl, ◌∙◌, ap, Bool, true, false, leb, ◌==◌, if◌then◌else◌,
}
use kauri_public.Base.Exec.{Result, ok, err, undefined}
use kauri_public.Net.Tree.{
  Loop, for_children, next_parent, and_then, for_parents, curr_fanout, levels, lay_out,
}

if-map :
    {A B : Type 0} (f : A → B) (b : Bool) (x y : A)
    → (if b then f x else f y) ≡ f (if b then x else y)
if-map f true x y = refl
if-map f false x y = refl

module _ (size fanout : ℕ) {S T : Type 0} (visit : ℕ → ℕ → S → S) (visit' : ℕ → ℕ → T → T)
    (f : S → T) (f-visit : (i j : ℕ) (out : S) → visit' i j (f out) ≡ f (visit i j out)) where
  abbrev pub image : Loop S → Loop T
  image t = record { i = t.i; start = t.start; done = t.done; out = f t.out }

  abbrev pub image_of : Result (Loop S) → Result (Loop T)
  image_of (err e) = err e
  image_of (ok t) = ok (image t)

  for_children-image :
      (k j : ℕ) (t : Loop S)
      → for_children size fanout visit' k j (image t) ≡ image (for_children size fanout visit k j t)
  unfolding for_children
  for_children-image zero j t = refl
  for_children-image (suc k) j t =
      let t' : Loop S = record t { out = visit t.i j t.out } in
      ap
        (λ o.
          if leb size j
          then record { i = t.i; start = t.start; done = true; out = f t.out }
          else for_children size fanout visit' k (j + 1)
              (record { i = t.i; start = t.start; done = t.done; out = o }))
        (f-visit t.i j t.out)
      ∙ ap (λ r. if leb size j then image (record t { done = true }) else r)
          (for_children-image k (j + 1) t')
      ∙ if-map image (leb size j) (record t { done = true })
          (for_children size fanout visit k (j + 1) t')

  next_parent-image :
      (curr : ℕ) (t : Loop S)
      → next_parent size fanout visit' curr (image t)
        ≡ image_of (next_parent size fanout visit curr t)
  next_parent-image curr t =
      if-map image_of (leb size (t.i + 1)) (err undefined)
        (ok (record t { i = t.i + 1; start = t.start + curr }))

  and_then-image :
      (r : Result (Loop S)) (g : Loop S → Result (Loop S)) (g' : Loop T → Result (Loop T))
      → ((t : Loop S) → g' (image t) ≡ image_of (g t))
      → and_then size fanout visit' (image_of r) g' ≡ image_of (and_then size fanout visit r g)
  and_then-image (err e) g g' h = refl
  and_then-image (ok t) g g' h = h t

  for_parents-image :
      (curr k : ℕ) (t : Loop S)
      → for_parents size fanout visit' curr k (image t)
        ≡ image_of (for_parents size fanout visit curr k t)
  unfolding for_parents
  for_parents-image curr zero t = refl
  for_parents-image curr (suc k) t =
      let g = for_parents size fanout visit curr k in
      let g' = for_parents size fanout visit' curr k in
      let c = for_children size fanout visit curr t.start t in
      ap
        (λ u.
          if t.done
          then ok (image t)
          else and_then size fanout visit' (next_parent size fanout visit' curr u) g')
        (for_children-image curr t.start t)
      ∙ ap (λ r. if t.done then ok (image t) else and_then size fanout visit' r g')
          (next_parent-image curr c)
      ∙ ap (λ r. if t.done then ok (image t) else r)
          (and_then-image (next_parent size fanout visit curr c) g g' (for_parents-image curr k))
      ∙ if-map image_of t.done (ok t)
          (and_then size fanout visit (next_parent size fanout visit curr c) g)

  levels-image :
      (fuel processes : ℕ) (t : Loop S)
      → levels size fanout visit' fuel processes (image t)
        ≡ image_of (levels size fanout visit fuel processes t)
  unfolding levels
  levels-image zero processes t = refl
  levels-image (suc fuel) processes t =
      let curr = curr_fanout size fanout visit processes t.i in
      let t0 : Loop S = record t { start = t.i + processes } in
      let next = min (curr * processes) (size - t.i) in
      let r = for_parents size fanout visit curr processes t0 in
      let rest = and_then size fanout visit r (levels size fanout visit fuel next) in
      ap
        (λ r'.
          if leb size t.i
          then ok (image t)
          else if t.done
          then ok (image t)
          else if processes == 0
          then err undefined
          else and_then size fanout visit' r' (levels size fanout visit' fuel next))
        (for_parents-image curr processes t0)
      ∙ ap
          (λ r'.
            if leb size t.i
            then ok (image t)
            else if t.done
            then ok (image t)
            else if processes == 0
            then err undefined
            else r')
          (and_then-image r (levels size fanout visit fuel next)
            (levels size fanout visit' fuel next) (levels-image fuel next))
      ∙ ap (λ r'. if leb size t.i then ok (image t) else if t.done then ok (image t) else r')
          (if-map image_of (processes == 0) (err undefined) rest)
      ∙ ap (λ r'. if leb size t.i then ok (image t) else r')
          (if-map image_of t.done (ok t) (if processes == 0 then err undefined else rest))
      ∙ if-map image_of (leb size t.i) (ok t)
          (if t.done then ok t else if processes == 0 then err undefined else rest)

  pub lay_out-image :
      (out : S) → lay_out size fanout visit' (f out) ≡ image_of (lay_out size fanout visit out)
  unfolding lay_out
  lay_out-image out =
      levels-image (size + 1) 1 (record { i = 0; start = 0; done = false; out = out })
