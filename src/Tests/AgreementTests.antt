-- ===== src/Tests/AgreementTests.antt =====
-- Four replicas, of which the first is faulty, on a chain of five blocks.
use kauri_public.Base.{
  ap, ◌∙◌, add32, ℕ, ◌+◌, ◌-◌, ◌≤◌, ◌<◌, ◌≡◌, ◌⊎◌, refl, inl, inr, Bool, true, false, ◌&&◌, ◌||◌,
  not, List, [], ◌∷◌, arith, ◌==◌, contains, Bool-cases,
}
use kauri_public.Base.Exec.{ok}
use kauri_public.Base.Maps
use kauri_public.Core.Deliver.{deliver_parents, on_deliver_blk}
use kauri_public.Core.Deliver.Done.{on_deliver_blk-Delivered}
use kauri_public.Core.Agreement.Stores.{keep_blk-at}
use kauri_public.Entity.Block.{empty_block}
use kauri_public.Core.Setup.{new_core, on_init}
use kauri_public.Core.Agreement.Start.{add_replicas, on_init-Begins}
use kauri_public.Core.State.{HotStuffCore, at}
use kauri_public.Core.Update.Order.{committed}
use kauri_public.Core.Votes.Sent.{votes}
use kauri_public.Core.Agreement.Tree.{Extends, Certified}
use kauri_public.Core.Agreement.Quorum.{count}
use kauri_public.Core.Agreement.Ballots.{Ballot, Cast, here, later}
use kauri_public.Core.Agreement.Memory.{Agrees}
use kauri_public.Core.Agreement.Calls.{
  Call, store, deliver, play, play_all, ballots, Follows, Begins,
}
use kauri_public.Core.Agreement.Safety.{Assumptions, commits-Agree}
use kauri_public.Tests.Samples.{plain}
use kauri_public.Tests.FourReplicas.{
  nothing_set, four, replica, sent, sent-IsRead, hears, fetches, five_calls, four_calls,
  sample_calls, sample_tree, sample_network, sample_tree-IsTree, all_fit, cells-Agree,
}

ballots_4 :
    (r : ℕ)
    → ballots four_calls (replica r) [] ≡ (
        record { blk = 104; lock = 102 }
        ∷ record { blk = 103; lock = 101 }
        ∷ record { blk = 102; lock = 100 }
        ∷ record { blk = 101; lock = 100 }
        ∷ [])
unfolding ballots Maps.find Maps.erase contains votes on_init add_replicas new_core empty_block
    deliver_parents Maps.insert add32
ballots_4 r = refl

ballots_5 :
    (r : ℕ)
    → ballots five_calls (replica r) [] ≡ (
        record { blk = 105; lock = 103 }
        ∷ record { blk = 104; lock = 102 }
        ∷ record { blk = 103; lock = 101 }
        ∷ record { blk = 102; lock = 100 }
        ∷ record { blk = 101; lock = 100 }
        ∷ [])
unfolding ballots Maps.find Maps.erase contains votes on_init add_replicas new_core empty_block
    deliver_parents Maps.insert add32
ballots_5 r = refl

replica-Begins : (r : ℕ) → Begins sample_tree (replica r)
replica-Begins r =
    on_init-Begins sample_tree sample_tree-IsTree r tt nothing_set (λ n. n) four 1 refl refl

-- Whether there is a vote for the block by a replica that is not locked on it.
abbrev has_cast : ℕ → List Ballot → Bool
has_cast b [] = false
has_cast b (x ∷ xs) = (x.blk == b && not (x.lock == b)) || has_cast b xs

has_cast-Cast : (b : ℕ) (xs : List Ballot) → has_cast b xs ≡ true → Cast b xs
has_cast-Cast b [] h = absurd (ground arith)
has_cast-Cast b (x ∷ xs) h = elim (Bool-cases (x.blk == b && not (x.lock == b))) [
  | inl hit ↦ here (ground arith) (λ e. ground arith)
  | inr miss ↦ later (has_cast-Cast b xs (ground arith))
]

sample_quorums :
    (b : ℕ) → Certified sample_tree b → 0 < b - 100 → 3 ≤ count 4 (sample_network.signers b)
unfolding count
sample_quorums b (c, e) pos = ground arith

sample_unforged :
    (b r : ℕ) → sample_network.signers b r ≡ true → Cast b (ballots (sample_calls r) (replica r) [])
sample_unforged b r h = elim (Bool-cases (r == 1)) [
  | inl one ↦ rw (one, ballots_4 r) (has_cast-Cast b _ (ground arith))
  | inr other ↦ rw (other, ballots_5 r) (has_cast-Cast b _ (ground arith))
]

-- No block from address 6 on is delivered.
abbrev IsFar : HotStuffCore plain → Type 0
IsFar s = (b : ℕ) → 6 ≤ b → (at s b).delivered ≡ false

abbrev fetched : ℕ → HotStuffCore plain → HotStuffCore plain
fetched n s = play (deliver (n + 1)) (play (store (sent n)) s)

fetched-IsFar :
    (n : ℕ) (s : HotStuffCore plain)
    → n < 5
    → s.heap.next ≡ n + 1
    → (on_deliver_blk (n + 1) (play (store (sent n)) s)).0 ≡ ok true
    → IsFar s
    → IsFar (fetched n s)
unfolding play
fetched-IsFar n s lt next done far b le =
    let u = play (store (sent n)) s in
    let d = on_deliver_blk-Delivered (n + 1) u (fetched n s) (ap (λ r. (r, fetched n s)) done) in
    ap (λ x. x.delivered) (d.others b (λ e. omega arith))
    ∙ ap (λ x. x.delivered) (keep_blk-at sample_tree (sent n) s [] b (ground arith))
    ∙ far b le

replica-IsFar : (r : ℕ) → IsFar (replica r)
unfolding on_init add_replicas new_core
replica-IsFar r b le = let e : (b == 0) ≡ false = ground arith in rw e refl

fetched-IsFar_0 : (r : ℕ) → IsFar (fetched 0 (replica r))
unfolding play on_deliver_blk Maps.find Maps.erase contains on_init add_replicas new_core
    empty_block deliver_parents Maps.insert add32
fetched-IsFar_0 r = fetched-IsFar 0 (replica r) (omega arith) refl refl (replica-IsFar r)

linked_0 : (r : ℕ) → Agrees {C = plain} sample_tree (fetched 0 (replica r)).heap.cell
unfolding play all_fit Maps.find Maps.erase contains on_init add_replicas new_core empty_block
    deliver_parents Maps.insert add32
linked_0 r = cells-Agree (fetched 0 (replica r)).heap.cell 6 refl (fetched-IsFar_0 r)

fetched-IsFar_1 : (r : ℕ) → IsFar (fetched 1 (fetched 0 (replica r)))
unfolding play on_deliver_blk Maps.find Maps.erase contains on_init add_replicas new_core
    empty_block deliver_parents Maps.insert add32
fetched-IsFar_1 r =
    fetched-IsFar 1 (fetched 0 (replica r)) (omega arith) refl refl (fetched-IsFar_0 r)

linked_1 : (r : ℕ) → Agrees {C = plain} sample_tree (fetched 1 (fetched 0 (replica r))).heap.cell
unfolding play all_fit Maps.find Maps.erase contains on_init add_replicas new_core empty_block
    deliver_parents Maps.insert add32
linked_1 r = cells-Agree (fetched 1 (fetched 0 (replica r))).heap.cell 6 refl (fetched-IsFar_1 r)

fetched-IsFar_2 : (r : ℕ) → IsFar (fetched 2 (fetched 1 (fetched 0 (replica r))))
unfolding play on_deliver_blk Maps.find Maps.erase contains on_init add_replicas new_core
    empty_block deliver_parents Maps.insert add32
fetched-IsFar_2 r =
    fetched-IsFar 2 (fetched 1 (fetched 0 (replica r))) (omega arith) refl refl (fetched-IsFar_1 r)

linked_2 :
    (r : ℕ)
    → Agrees {C = plain} sample_tree (fetched 2 (fetched 1 (fetched 0 (replica r)))).heap.cell
unfolding play all_fit Maps.find Maps.erase contains on_init add_replicas new_core empty_block
    deliver_parents Maps.insert add32
linked_2 r =
    cells-Agree (fetched 2 (fetched 1 (fetched 0 (replica r)))).heap.cell 6 refl (fetched-IsFar_2 r)

fetched-IsFar_3 : (r : ℕ) → IsFar (fetched 3 (fetched 2 (fetched 1 (fetched 0 (replica r)))))
unfolding play on_deliver_blk Maps.find Maps.erase contains on_init add_replicas new_core
    empty_block deliver_parents Maps.insert add32
fetched-IsFar_3 r =
    fetched-IsFar 3 (fetched 2 (fetched 1 (fetched 0 (replica r)))) (omega arith) refl refl
      (fetched-IsFar_2 r)

linked_3 :
    (r : ℕ)
    → Agrees {C = plain} sample_tree
        (fetched 3 (fetched 2 (fetched 1 (fetched 0 (replica r))))).heap.cell
unfolding play all_fit Maps.find Maps.erase contains on_init add_replicas new_core empty_block
    deliver_parents Maps.insert add32
linked_3 r =
    cells-Agree (fetched 3 (fetched 2 (fetched 1 (fetched 0 (replica r))))).heap.cell 6 refl
      (fetched-IsFar_3 r)

fetched-IsFar_4 :
    (r : ℕ) → IsFar (fetched 4 (fetched 3 (fetched 2 (fetched 1 (fetched 0 (replica r))))))
unfolding play on_deliver_blk Maps.find Maps.erase contains on_init add_replicas new_core
    empty_block deliver_parents Maps.insert add32
fetched-IsFar_4 r =
    fetched-IsFar 4 (fetched 3 (fetched 2 (fetched 1 (fetched 0 (replica r))))) (omega arith) refl
      refl (fetched-IsFar_3 r)

linked_4 :
    (r : ℕ)
    → Agrees {C = plain} sample_tree
        (fetched 4 (fetched 3 (fetched 2 (fetched 1 (fetched 0 (replica r)))))).heap.cell
unfolding play all_fit Maps.find Maps.erase contains on_init add_replicas new_core empty_block
    deliver_parents Maps.insert add32
linked_4 r =
    cells-Agree (fetched 4 (fetched 3 (fetched 2 (fetched 1 (fetched 0 (replica r)))))).heap.cell 6
      refl (fetched-IsFar_4 r)

fetches-Follows :
    (r : ℕ) (rest : List (Call plain))
    → Follows sample_tree rest
        (fetched 4 (fetched 3 (fetched 2 (fetched 1 (fetched 0 (replica r))))))
    → Follows sample_tree (fetches rest) (replica r)
unfolding play committed Maps.find Maps.erase contains on_init add_replicas new_core empty_block
    deliver_parents Maps.insert add32
fetches-Follows r rest h = (
  sent-IsRead 0,
  record { empty = refl; unseen = refl },
  (
    linked_0 r,
    (
      sent-IsRead 1,
      record { empty = refl; unseen = refl },
      (
        linked_1 r,
        (
          sent-IsRead 2,
          record { empty = refl; unseen = refl },
          (
            linked_2 r,
            (
              sent-IsRead 3,
              record { empty = refl; unseen = refl },
              (
                linked_3 r,
                (sent-IsRead 4, record { empty = refl; unseen = refl }, (linked_4 r, h)),
              ),
            ),
          ),
        ),
      ),
    ),
  ),
)

sample-Follows : (r : ℕ) → Follows sample_tree (sample_calls r) (replica r)
sample-Follows r = elim (Bool-cases (r == 1)) [
  | inl one ↦ rw one (fetches-Follows r (hears 1 ∷ hears 2 ∷ hears 3 ∷ hears 4 ∷ []) tt)
  | inr other ↦
      rw other (fetches-Follows r (hears 1 ∷ hears 2 ∷ hears 3 ∷ hears 4 ∷ hears 5 ∷ []) tt)
]

sample-Assumptions : Assumptions sample_network
unfolding count
sample-Assumptions = record {
  is_tree = sample_tree-IsTree;
  few = omega arith;
  few_faulty = omega arith;
  begins = λ r ok. replica-Begins r;
  follows = λ r ok. sample-Follows r;
  quorums = sample_quorums;
  unforged = λ b r h ok. sample_unforged b r h;
}

commits-Agree_example : Extends sample_tree 101 102 ⊎ Extends sample_tree 102 101
unfolding play_all committed Maps.find Maps.erase contains on_init add_replicas new_core empty_block
    deliver_parents Maps.insert add32
commits-Agree_example = commits-Agree sample_network sample-Assumptions 1 2 1 2 refl refl refl refl
