-- ===== src/Net/Tree/Spans.antt =====
-- The loops of `start` give every replica but the first exactly one parent.
use native.Mathlib.Nat.{div-eq-sub-div, div-one}
use kauri_public.Base.{
  ℕ, zero, suc, ◌+◌, ◌-◌, ◌*◌, ◌/◌, ◌≤◌, ◌<◌, ◌≡◌, min, refl, sym, ◌∙◌, ap, subst, ◌⊎◌, inl, inr,
  Bool, true, false, arith, leb, ◌==◌, Bool-cases, if◌then◌else◌,
}
use kauri_public.Base.Exec.{Result, ok, err, undefined}
use kauri_public.Net.Tree.{Loop, for_children, next_parent, and_then, for_parents, levels, lay_out}

if_true : {A : Type 0} {b : Bool} (x y : A) → b ≡ true → (if b then x else y) ≡ x
if_true x y h = rw h

if_false : {A : Type 0} {b : Bool} (x y : A) → b ≡ false → (if b then x else y) ≡ y
if_false x y h = rw h

two-le-mul : (p c : ℕ) → ((2 ≤ p) × (1 ≤ c)) ⊎ ((p ≡ 1) × (2 ≤ c)) → 2 ≤ p * c
two-le-mul zero c (inl (h, k)) = absurd (omega arith)
two-le-mul (suc zero) c (inl (h, k)) = absurd (omega arith)
two-le-mul (suc (suc p)) c (inl (h, k)) = omega arith
two-le-mul p c (inr (h, k)) = rw h (omega arith)

one-le-min :
    (size fanout p i : ℕ) → 0 < p → i + p ≤ size → 1 ≤ fanout → 1 ≤ min ((size - i) / p) fanout
one-le-min size fanout p i pos fits wide =
    let quotient : (size - i) / p ≡ (size - i - p) / p + 1 = div-eq-sub-div pos (omega arith) in
    omega (arith, quotient)

two-le-min :
    (size fanout p i : ℕ) → p ≡ 1 → i ≡ 0 → 2 ≤ size → 2 ≤ fanout → 2 ≤ min ((size - i) / p) fanout
two-le-min size fanout p i one_wide first many wide =
    let quotient : (size - i) / p ≡ size - i =
      ap (λ q. (size - i) / q) one_wide ∙ div-one (size - i) in
    omega (arith, quotient)

module _ (size fanout : ℕ) {S : Type 0} (visit : ℕ → ℕ → S → S) (P : ℕ → S → Type 0)
    (step : (i j : ℕ) (out : S) → i < j → j < size → P j out → P (j + 1) (visit i j out)) where
  retag : {m n : ℕ} {out : S} → m ≡ n → P m out → P n out
  retag {out = out} e h = subst (λ n. P n out) e h

  -- After the children: either all replicas have their parent, or the next one is at hand.
  for_children-spans :
      (k j : ℕ) (t : Loop S)
      → t.i < j
      → j ≤ size
      → t.done ≡ false
      → P j t.out
      → let u = for_children size fanout visit k j t in
        (u.i ≡ t.i)
        × (u.start ≡ t.start)
        × (((u.done ≡ true) × P size u.out) ⊎ ((u.done ≡ false) × (j + k ≤ size) × P (j + k) u.out))
  unfolding for_children
  for_children-spans zero j t low fits going h =
      (refl, refl, inr (going, omega arith, subst (λ n. P n t.out) (omega arith) h))
  for_children-spans (suc k) j t low fits going h = elim (Bool-cases (leb size j)) [
    | inl last ↦
        let same : j ≡ size = ground arith in
        rw last (refl, refl, inl (refl, subst (λ n. P n t.out) same h))
    | inr more ↦
        let inside : j < size = ground arith in
        let ih =
          for_children-spans k (j + 1) (record t { out = visit t.i j t.out }) (omega arith)
            (omega arith) going (step t.i j t.out low inside h) in
        rw more (
          ih.0,
          ih.1,
          elim ih.2 [
            | inl all ↦ inl all
            | inr (going', fits', h') ↦ inr (going', omega arith, retag (omega arith) h')
          ],
        )
  ]

  -- What a level of the tree leads to.
  data Laid (curr k : ℕ) (t : Loop S) : Result (Loop S) → Type 0 where
    full : {u : Loop S} → u.done ≡ true → P size u.out → Laid curr k t (ok u)
    open_ :
        {u : Loop S}
        → u.done ≡ false
        → u.i ≡ t.i + k
        → t.start + k * curr ≤ size
        → P (t.start + k * curr) u.out
        → Laid curr k t (ok u)

  Laid-done :
      (curr k l : ℕ) (t t' : Loop S)
      → t'.done ≡ true
      → P size t'.out
      → Laid curr l t (for_parents size fanout visit curr k t')
  unfolding for_parents
  Laid-done curr zero l t t' done h = full done h
  Laid-done curr (suc k) l t t' done h =
      subst (Laid curr l t) (sym (if_true _ _ done)) (full done h)

  Laid-suc :
      (curr k : ℕ) (t t' : Loop S) (r : Result (Loop S))
      → t'.i ≡ t.i + 1
      → t'.start ≡ t.start + curr
      → Laid curr k t' r
      → Laid curr (suc k) t r
  Laid-suc curr k t t' r ei es (full done h) = full done h
  Laid-suc curr k t t' r ei es (open_ going at_i fits h) =
      open_ going (omega arith) (omega arith) (retag (omega arith) h)

  for_parents-Laid :
      (curr k : ℕ) (t : Loop S)
      → 0 < curr
      → t.i + k ≤ t.start
      → t.start ≤ size
      → (0 < k → t.i + 1 < size)
      → t.done ≡ false
      → P t.start t.out
      → Laid curr k t (for_parents size fanout visit curr k t)
  unfolding for_parents
  for_parents-Laid curr zero t pos below fits room going h =
      open_ going (omega arith) (omega arith) (retag (omega arith) h)
  for_parents-Laid curr (suc k) t pos below fits room going h =
      let c : Loop S = for_children size fanout visit curr t.start t in
      let t' : Loop S = record c { i = c.i + 1; start = c.start + curr } in
      let sp = for_children-spans curr t.start t (omega arith) fits going h in
      let inside = room (omega arith) in
      let next : next_parent size fanout visit curr c ≡ ok t' =
        if_false {b = leb size (c.i + 1)} (err undefined) (ok t') (ground (arith, sp.0, inside)) in
      let whole : for_parents size fanout visit curr (suc k) t
          ≡ for_parents size fanout visit curr k t' =
        if_false _ _ going
        ∙ ap (λ r. and_then size fanout visit r (for_parents size fanout visit curr k)) next in
      subst (Laid curr (suc k) t) (sym whole) (elim sp.2 [
        | inl (done, all) ↦ Laid-done curr k (suc k) t t' done all
        | inr (going', fits', h') ↦
            Laid-suc curr k t t' _ (omega (arith, sp.0)) (omega (arith, sp.1)) (
              for_parents-Laid curr k t' pos (omega (arith, sp.0, sp.1)) (omega (arith, sp.1))
                (λ some_left. omega (arith, sp.0)) going' (retag (omega (arith, sp.1)) h'))
      ])

  levels-done :
      (fuel processes : ℕ) (t : Loop S)
      → 0 < fuel
      → t.done ≡ true
      → levels size fanout visit fuel processes t ≡ ok t
  unfolding levels
  levels-done zero processes t pos done = absurd (omega arith)
  levels-done (suc fuel) processes t pos done = elim (Bool-cases (leb size t.i)) [
    | inl out ↦ if_true _ _ out
    | inr within ↦ if_false _ _ within ∙ if_true _ _ done
  ]

  -- All edges are laid out.
  abbrev Spanned : Result (Loop S) → Type 0
  Spanned r = (u : Loop S) × (r ≡ ok u) × P size u.out

  and_then-Spanned :
      (curr k fuel processes : ℕ) (t : Loop S) {r : Result (Loop S)}
      → Laid curr k t r
      → 0 < fuel
      → ((u : Loop S)
          → u.done ≡ false
          → u.i ≡ t.i + k
          → t.start + k * curr ≤ size
          → P (t.start + k * curr) u.out
          → Spanned (levels size fanout visit fuel processes u))
      → Spanned (and_then size fanout visit r (levels size fanout visit fuel processes))
  and_then-Spanned curr k fuel processes t (full {u} done h) pos ih =
      (u, levels-done fuel processes u pos done, h)
  and_then-Spanned curr k fuel processes t (open_ {u} going at_i fits h) pos ih =
      ih u going at_i fits h

  module _ (many : 2 ≤ size) (wide : 2 ≤ fanout) where
    levels-Spanned :
        (fuel processes : ℕ) (t : Loop S)
        → t.done ≡ false
        → (2 ≤ processes) ⊎ ((processes ≡ 1) × (t.i ≡ 0))
        → t.i + processes ≤ size
        → size < t.i + fuel
        → P (t.i + processes) t.out
        → Spanned (levels size fanout visit fuel processes t)
    unfolding levels
    levels-Spanned zero processes t going shape fits fuelled h = absurd (omega arith)
    levels-Spanned (suc fuel) processes t going shape fits fuelled h =
        let curr = min ((size - t.i) / processes) fanout in
        let t0 : Loop S = record t { start = t.i + processes } in
        let some_here : 1 ≤ processes = ground arith in
        let pos : 1 ≤ curr = one-le-min size fanout processes t.i some_here fits (omega arith) in
        let product : 2 ≤ processes * curr = two-le-mul processes curr (elim shape [
          | inl more ↦ inl (more, pos)
          | inr (one_here, first) ↦
              inr (one_here, two-le-min size fanout processes t.i one_here first many wide)
        ]) in
        let laid =
          for_parents-Laid curr processes t0 pos (omega arith) fits (λ _. ground arith) going h in
        let next = min (curr * processes) (size - t.i) in
        let rest =
          and_then size fanout visit (for_parents size fanout visit curr processes t0)
            (levels size fanout visit fuel next) in
        let whole : levels size fanout visit (suc fuel) processes t ≡ rest =
          if_false {b = leb size t.i} _ _ (ground arith)
          ∙ if_false {b = t.done} _ _ going
          ∙ if_false {b = processes == 0} (err undefined) rest (ground arith) in
        subst Spanned (sym whole) (
          and_then-Spanned curr processes fuel next t0 laid (omega arith) λ u going' at_i fits' h'.
            let level : next ≡ processes * curr = omega arith in
            levels-Spanned fuel next u going' (inl (omega arith)) (omega arith) (omega arith)
              (retag (omega arith) h'))

    -- With a fanout of two or more, and two replicas or more, the loops end without an error, and any
    -- property that each edge carries on, from a lower `i` to `j`, holds after edges to 1, .., size - 1.
    pub lay_out-Spanned :
        (out : S) → P 1 out → (u : Loop S) × (lay_out size fanout visit out ≡ ok u) × P size u.out
    unfolding lay_out
    lay_out-Spanned out h =
        levels-Spanned (size + 1) 1 (record { i = 0; start = 0; done = false; out = out }) refl
          (inr (refl, refl)) (omega arith) (omega arith) h
