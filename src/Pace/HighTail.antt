-- ===== src/Pace/HighTail.antt =====
-- `PMHighTail`: a proposal stands on the highest tail that follows the block of the highest
-- certificate.
pub mod Highest
use kauri_public.Base.{
  ℕ, Bool, true, false, Option, none, some, List, [], ◌∷◌, ◌==◌, ltb, if◌then◌else◌,
}
use kauri_public.Base.Exec.{Result, ok, err, undefined}
use kauri_public.Crypto.Scheme.{Scheme}
use kauri_public.Core.State.{HotStuffCore, Proposal, at}
use kauri_public.Core.Update.{walk, walk_from}

pub record HighTail : Type 0 where
  pub hqc_tail : ℕ
  pub parent_limit : ℕ

abbrev pub ends_at : ℕ → Result (List ℕ × ℕ) → Result Bool
ends_at a (err e) = err e
ends_at a (ok (queue, last)) = ok (last == a)

-- What a test chooses, if it answers.
abbrev pub choose : {A : Type 0} → Result Bool → A → A → Result A
choose (err e) x y = err e
choose (ok true) x y = ok x
choose (ok false) x y = ok y

abbrev pub with_tail : HighTail → Result ℕ → Result HighTail
with_tail pm (err e) = err e
with_tail pm (ok b) = ok (record pm { hqc_tail = b })

abbrev pub then_tails : Result ℕ → (ℕ → Result ℕ) → Result ℕ
then_tails (err e) k = err e
then_tails (ok best) k = k best

-- The callback of `reg_proposal`.
unfoldable pub proposal_made : Proposal → HighTail → HighTail
proposal_made prop pm = record pm { hqc_tail = prop.blk }

unfoldable pub get_parents : HighTail → List ℕ
get_parents pm = pm.hqc_tail ∷ []

module _ {C : Scheme} where
  -- The loop down from `b` is that of `update`.
  unfoldable pub check_ancestry : HotStuffCore C → ℕ → ℕ → Result Bool
  unfolding walk
  check_ancestry s a b = ends_at a (walk_from s.heap.cell (at s a).height b)

  -- `b`, if it follows `hqc` and is higher than `best`
  unfoldable pub higher_tail : HotStuffCore C → ℕ → ℕ → ℕ → Result ℕ
  unfolding check_ancestry
  higher_tail s hqc best b =
      choose (check_ancestry s hqc b) (if ltb (at s best).height (at s b).height then b else best)
        best

  unfoldable pub highest_tail : HotStuffCore C → ℕ → ℕ → List ℕ → Result ℕ
  unfolding higher_tail
  highest_tail s hqc best [] = ok best
  highest_tail s hqc best (b ∷ bs) =
      then_tails (higher_tail s hqc best b) (λ next. highest_tail s hqc next bs)

  -- The callback of `reg_hqc_update`.
  unfoldable pub hqc_updated : HotStuffCore C → ℕ → HighTail → Result HighTail
  unfolding highest_tail
  hqc_updated s hqc pm = with_tail pm (highest_tail s hqc hqc s.tails)

  abbrev pub tail_above : HotStuffCore C → Option (ℕ × C.QuorumCert) → ℕ → ℕ → Result ℕ
  tail_above s none best b = err undefined
  tail_above s (some (hqc, cert)) best b = higher_tail s hqc best b

  -- The callback of `reg_receive_proposal`.
  unfoldable pub proposal_received : HotStuffCore C → Proposal → HighTail → Result HighTail
  unfolding higher_tail
  proposal_received s prop pm = with_tail pm (tail_above s s.hqc pm.hqc_tail prop.blk)

  unfoldable pub init_tail : HotStuffCore C → ℕ → HighTail
  init_tail s parent_limit = record { hqc_tail = s.b0; parent_limit = parent_limit }
