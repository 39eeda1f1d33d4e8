-- ===== src/Pace/HighTail/Highest.antt =====
-- The block that `PMHighTail` chooses after an update of the highest certificate.
use kauri_public.Base.{
  ℕ, zero, suc, ◌≤◌, ◌<◌, ◌≡◌, refl, sym, ◌∙◌, ap, subst, ◌⊎◌, inl, inr, true, false, ◌||◌, List,
  [], ◌∷◌, arith, ◌==◌, ==_iff, ltb, ltb→lt, ltb→le, Bool-cases, All, contains,
}
use kauri_public.Base.Exec.{Result, ok}
use kauri_public.Crypto.Scheme.{Scheme}
use kauri_public.Entity.Block.{Block}
use kauri_public.Core.State.{HotStuffCore, at}
use kauri_public.Core.Update.Chain.{IsParent, Falls, Branch, stop, down, Branch-walk}
use kauri_public.Pace.HighTail.{
  HighTail, ends_at, with_tail, check_ancestry, higher_tail, highest_tail, hqc_updated,
}

module _ {C : Scheme} where
  -- A block above `floor` has a direct parent.
  abbrev pub Rooted : (ℕ → Block C) → ℕ → Type 0
  Rooted cell floor = (b : ℕ) → floor < (cell b).height → (p : ℕ) × IsParent cell p b

  -- The branch of `b` leads down to `a`.
  abbrev pub Extends : HotStuffCore C → ℕ → ℕ → Type 0
  Extends s a b = (queue : List ℕ) × Branch s.heap.cell (at s a).height b queue a

  pub Rooted-Branch :
      (cell : ℕ → Block C) (floor fuel b : ℕ)
      → Falls cell
      → Rooted cell floor
      → (cell b).height < fuel
      → (queue : List ℕ) × (last : ℕ) × Branch cell floor b queue last
  Rooted-Branch cell floor zero b falls rooted h = absurd (omega arith)
  Rooted-Branch cell floor (suc fuel) b falls rooted h =
      elim (Bool-cases (ltb floor (cell b).height)) [
        | inl high ↦
            let (p, e) = rooted b (ltb→lt _ _ high) in
            let (queue, last, br) =
              Rooted-Branch cell floor fuel p falls rooted (omega (arith, falls b p e)) in
            (b ∷ queue, last, down (ltb→lt _ _ high) e br)
        | inr low ↦ ([], b, stop (ltb→le _ _ low))
      ]

  -- The test answers, and what it answers.
  pub check_ancestry-Extends :
      (s : HotStuffCore C) (a b : ℕ)
      → Falls s.heap.cell
      → Rooted s.heap.cell (at s a).height
      → (check_ancestry s a b ≡ ok true) × Extends s a b
        ⊎ (check_ancestry s a b ≡ ok false) × (Extends s a b → ⊥)
  unfolding check_ancestry
  check_ancestry-Extends s a b falls rooted =
      let (queue, last, br) =
        Rooted-Branch s.heap.cell (at s a).height (suc (at s b).height) b falls rooted
          (omega arith) in
      let run = Branch-walk s.heap.cell (suc (at s b).height) falls br (omega arith) in
      elim (Bool-cases (last == a)) [
        | inl same ↦ inl (
          ap (ends_at a) run ∙ ap ok same,
          (
            queue,
            subst (λ l. Branch s.heap.cell (at s a).height b queue l) ((==_iff last a).0 same) br,
          ),
        )
        | inr other ↦ inr (
          ap (ends_at a) run ∙ ap ok other,
          λ (queue', br').
              let run' = Branch-walk s.heap.cell (suc (at s b).height) falls br' (omega arith) in
              clash last other (ends queue last queue' (sym run ∙ run')),
        )
      ]
    where
      ends :
          (q : List ℕ) (l : ℕ) (q' : List ℕ)
          → ◌≡◌ {A = Result (List ℕ × ℕ)} (ok (q, l)) (ok (q', a))
          → l ≡ a
      ends q l q' e = ground arith

      clash : (l : ℕ) → (l == a) ≡ false → l ≡ a → ⊥
      clash l other e = absurd (ground arith)

  -- `out` is `best`, or `b` if that follows `hqc` and is higher.
  pub record Better (s : HotStuffCore C) (hqc best b out : ℕ) : Type 0 where
    pub extends : Extends s hqc out
    pub above : (at s best).height ≤ (at s out).height
    pub highest : Extends s hqc b → (at s b).height ≤ (at s out).height
    pub from : (out ≡ best) ⊎ (out ≡ b)

  pub higher_tail-Better :
      (s : HotStuffCore C) (hqc best b : ℕ)
      → Falls s.heap.cell
      → Rooted s.heap.cell (at s hqc).height
      → Extends s hqc best
      → (out : ℕ) × (higher_tail s hqc best b ≡ ok out) × Better s hqc best b out
  unfolding higher_tail
  higher_tail-Better s hqc best b falls rooted follows =
      elim (check_ancestry-Extends s hqc b falls rooted) [
        | inl (follow, extends) ↦ elim (Bool-cases (ltb (at s best).height (at s b).height)) [
          | inl higher ↦ (
            b,
            rw follow (rw higher refl),
            record {
              extends = extends;
              above = omega (arith, ltb→lt _ _ higher);
              highest = λ _. omega arith;
              from = inr refl;
            },
          )
          | inr lower ↦ (
            best,
            rw follow (rw lower refl),
            record {
              extends = follows;
              above = omega arith;
              highest = λ _. ltb→le _ _ lower;
              from = inl refl;
            },
          )
        ]
        | inr (off, apart) ↦ (
          best,
          rw off refl,
          record {
            extends = follows;
            above = omega arith;
            highest = λ e. absurd (apart e);
            from = inl refl;
          },
        )
      ]

  -- `out` follows `hqc`, no tail that follows `hqc` is higher, and it is `best` or a tail.
  pub record Highest (s : HotStuffCore C) (hqc best : ℕ) (tails : List ℕ) (out : ℕ) : Type 0 where
    pub extends : Extends s hqc out
    pub above : (at s best).height ≤ (at s out).height
    pub highest : All (λ b. Extends s hqc b → (at s b).height ≤ (at s out).height) tails
    pub from : (out ≡ best) ⊎ (contains out tails ≡ true)

  All-lower :
      (s : HotStuffCore C) (hqc low high : ℕ) (bs : List ℕ)
      → (at s low).height ≤ (at s high).height
      → All (λ b. Extends s hqc b → (at s b).height ≤ (at s low).height) bs
      → All (λ b. Extends s hqc b → (at s b).height ≤ (at s high).height) bs
  All-lower s hqc low high [] h all = tt
  All-lower s hqc low high (b ∷ bs) h all =
      (λ e. omega (arith, all.0 e), All-lower s hqc low high bs h all.1)

  Highest-add :
      (s : HotStuffCore C) (hqc best b next out : ℕ) (bs : List ℕ)
      → Better s hqc best b next
      → Highest s hqc next bs out
      → Highest s hqc best (b ∷ bs) out
  unfolding contains
  Highest-add s hqc best b next out bs one rest = record {
    extends = rest.extends;
    above = omega (arith, one.above, rest.above);
    highest = (λ e. omega (arith, one.highest e, rest.above), rest.highest);
    from = elim rest.from [
      | inl same ↦ elim one.from [ inl old ↦ inl (same ∙ old) | inr new ↦ inr (found (same ∙ new)) ]
      | inr later ↦ inr (ground arith)
    ];
  }
    where
      found : out ≡ b → (b == out) || contains out bs ≡ true
      found e = ground arith

  pub highest_tail-Highest :
      (s : HotStuffCore C) (hqc best : ℕ) (tails : List ℕ)
      → Falls s.heap.cell
      → Rooted s.heap.cell (at s hqc).height
      → Extends s hqc best
      → (out : ℕ) × (highest_tail s hqc best tails ≡ ok out) × Highest s hqc best tails out
  unfolding highest_tail
  highest_tail-Highest s hqc best [] falls rooted follows =
      (best, refl, record { extends = follows; above = omega arith; highest = tt; from = inl refl })
  highest_tail-Highest s hqc best (b ∷ bs) falls rooted follows =
      let (next, e, one) = higher_tail-Better s hqc best b falls rooted follows in
      let (out, e', rest) = highest_tail-Highest s hqc next bs falls rooted one.extends in
      (out, rw e e', Highest-add s hqc best b next out bs one rest)

  -- If direct parents are lower and blocks above the block of the new highest certificate have one,
  -- the pacemaker finds its tail: it follows that block, it is that block or a tail, and no tail that
  -- follows that block is higher.
  pub hqc_updated-Highest :
      (s : HotStuffCore C) (hqc : ℕ) (pm : HighTail)
      → Falls s.heap.cell
      → Rooted s.heap.cell (at s hqc).height
      → (out : HighTail) × (hqc_updated s hqc pm ≡ ok out) × Highest s hqc hqc s.tails out.hqc_tail
  unfolding hqc_updated
  hqc_updated-Highest s hqc pm falls rooted =
      let (b, e, h) =
        highest_tail-Highest s hqc hqc s.tails falls rooted ([], stop (omega arith)) in
      (record pm { hqc_tail = b }, ap (with_tail pm) e, h)
