-- ===== src/Tests/FourReplicas.antt =====
-- Four replicas from the constructor on, which read and deliver a chain of five blocks, and a test that
-- cells are linked as the tree says.
use kauri_public.Base.{
  sym, subst, ap, Option, ==_iff, ℕ, zero, suc, ◌+◌, ◌-◌, ◌≤◌, ◌<◌, ◌≡◌, refl, inl, inr, Bool, true,
  false, ◌&&◌, ◌||◌, not, none, some, List, [], ◌∷◌, arith, ltb, leb, ◌==◌, Bool-cases,
  if◌then◌else◌,
}
use kauri_public.Base.Exec.{Result, ok, err}
use kauri_public.Entity.Block.{Block, empty_block, first_of_list}
use kauri_public.Core.Setup.{Unset, new_core, on_init}
use kauri_public.Core.Agreement.Start.{add_replicas}
use kauri_public.Core.State.{HotStuffCore}
use kauri_public.Core.Votes.History.{receive_proposal}
use kauri_public.Core.Agreement.Tree.{Tree, IsTree, same}
use kauri_public.Core.Agreement.Memory.{Agrees, hash_of}
use kauri_public.Core.Agreement.Calls.{Call, input, store, deliver, IsRead}
use kauri_public.Core.Agreement.Safety.{Network}
use kauri_public.Tests.Samples.{plain, sample_cert, proposal}

abbrev pub nothing_set : Unset
nothing_set = record {
  summed_latency = 0;
  processed_blocks = 0;
  fanout = 2;
  piped_latency = 10;
  async_blocks = 0;
  last_block_time = 0;
}

abbrev pub four : List (ℕ × ℕ × plain.PubKey)
four = (0, 50, tt) ∷ (1, 51, tt) ∷ (2, 52, tt) ∷ (3, 53, tt) ∷ []

abbrev pub replica : ℕ → HotStuffCore plain
replica r = on_init 1 (add_replicas four (new_core r tt nothing_set (λ n. n)))

-- Block `n + 1` as it is read.
abbrev pub sent : ℕ → Block plain
sent n = record (empty_block plain (101 + n)) {
  parent_hashes = (100 + n) ∷ [];
  cmds = n ∷ [];
  qc = some (sample_cert (100 + n));
}

pub sent-IsRead : (n : ℕ) → IsRead {C = plain} (sent n)
unfolding empty_block
sent-IsRead n = record { delivered = refl; decision = refl }

abbrev pub hears : ℕ → Call plain
hears b = input (receive_proposal (proposal b))

abbrev pub fetches : List (Call plain) → List (Call plain)
fetches rest =
    store (sent 0)
    ∷ deliver 1
    ∷ store (sent 1)
    ∷ deliver 2
    ∷ store (sent 2)
    ∷ deliver 3
    ∷ store (sent 3)
    ∷ deliver 4
    ∷ store (sent 4)
    ∷ deliver 5
    ∷ rest

abbrev pub five_calls : List (Call plain)
five_calls = fetches (hears 1 ∷ hears 2 ∷ hears 3 ∷ hears 4 ∷ hears 5 ∷ [])

abbrev pub four_calls : List (Call plain)
four_calls = fetches (hears 1 ∷ hears 2 ∷ hears 3 ∷ hears 4 ∷ [])

abbrev pub sample_calls : ℕ → List (Call plain)
sample_calls r = if r == 1 then four_calls else five_calls

abbrev pub sample_tree : Tree
sample_tree = record {
  genesis = 100;
  height = λ h. h - 100;
  parent = λ h. if ltb 100 h then some (h - 1) else none;
  ref = λ h. if h == 100 then some 100 else if ltb 100 h && leb h 105 then some (h - 1) else none;
}

abbrev pub sample_network : Network plain
sample_network = record {
  tree = sample_tree;
  nreplicas = 4;
  nfaulty = 1;
  faulty = λ r. r == 0;
  start = replica;
  calls = sample_calls;
  signers = λ b r. ltb 100 b && leb b 104 && ltb 0 r;
}

pub sample_tree-IsTree : IsTree sample_tree
sample_tree-IsTree = record {
  root = refl;
  root_ref = λ r e. ground arith;
  rises = λ b p e. ground arith;
  grounded = λ b r e ne. (r, ground arith, same);
}

-- Whether a cell is linked as the tree says.
abbrev pub same_option : Option ℕ → Option ℕ → Bool
same_option none none = true
same_option (some a) (some b) = a == b
same_option _ _ = false

same_option-eq : (a b : Option ℕ) → same_option a b ≡ true → a ≡ b
same_option-eq none none e = refl
same_option-eq none (some b) e = absurd (ground arith)
same_option-eq (some a) none e = absurd (ground arith)
same_option-eq (some a) (some b) e = ap some ((==_iff a b).0 e)

abbrev pub is_in : (ℕ → Block plain) → Option ℕ → Bool
is_in cell none = true
is_in cell (some r) = (cell r).delivered

abbrev pub parent_fits : (ℕ → Block plain) → ℕ → Result (Option ℕ) → Bool
parent_fits cell h (err e) = true
parent_fits cell h (ok none) = true
parent_fits cell h (ok (some p)) =
    (cell p).delivered && same_option (sample_tree.parent h) (some (cell p).hash)

abbrev pub fits : (ℕ → Block plain) → Block plain → Bool
fits cell x =
    not x.delivered
    || (x.height == (x.hash - 100)
        && (parent_fits cell x.hash (first_of_list x.parents)
            && (same_option (sample_tree.ref x.hash) (hash_of {C = plain} cell x.qc_ref)
                && is_in cell x.qc_ref)))

unfoldable pub all_fit : (ℕ → Block plain) → ℕ → Bool
all_fit cell zero = true
all_fit cell (suc n) = fits cell (cell n) && all_fit cell n

both : (a b : Bool) → (a && b) ≡ true → (a ≡ true) × (b ≡ true)
both a b e = (ground arith, ground arith)

all_fit-at :
    (cell : ℕ → Block plain) (n b : ℕ) → b < n → all_fit cell n ≡ true → fits cell (cell b) ≡ true
unfolding all_fit
all_fit-at cell zero b lt e = absurd (omega arith)
all_fit-at cell (suc n) b lt e = elim (Bool-cases (b == n)) [
  | inl last ↦
      subst (λ c. fits cell (cell c) ≡ true) (sym ((==_iff b n).0 last))
        (both (fits cell (cell n)) (all_fit cell n) e).0
  | inr other ↦ all_fit-at cell n b (ground arith) (both (fits cell (cell n)) (all_fit cell n) e).1
]

fits_parts :
    (d h p r i : Bool)
    → d ≡ true
    → (not d || (h && (p && (r && i)))) ≡ true
    → (h ≡ true) × (p ≡ true) × (r ≡ true) × (i ≡ true)
fits_parts d h p r i e f = (ground arith, ground arith, ground arith, ground arith)

pub cells-Agree :
    (cell : ℕ → Block plain) (n : ℕ)
    → all_fit cell n ≡ true
    → ((b : ℕ) → n ≤ b → (cell b).delivered ≡ false)
    → Agrees {C = plain} sample_tree cell
cells-Agree cell n all far = record {
  height = λ b d. sym ((==_iff (cell b).height ((cell b).hash - 100)).0 (parts b d).0);
  parent = λ b p d up.
      let h = subst (λ r. parent_fits cell (cell b).hash r ≡ true) up (parts b d).1 in
      let (dp, e) = both (cell p).delivered _ h in (dp, same_option-eq _ _ e);
  ref = λ b d. same_option-eq _ _ (parts b d).2;
  ref_in = λ b r d up. subst (λ o. is_in cell o ≡ true) up (parts b d).3;
}
  where
    parts :
        (b : ℕ)
        → (cell b).delivered ≡ true
        → (((cell b).height == ((cell b).hash - 100)) ≡ true)
          × (parent_fits cell (cell b).hash (first_of_list (cell b).parents) ≡ true)
          × (same_option (sample_tree.ref (cell b).hash) (hash_of {C = plain} cell (cell b).qc_ref)
              ≡ true)
          × (is_in cell (cell b).qc_ref ≡ true)
    parts b d = elim (Bool-cases (ltb b n)) [
      | inl low ↦ fits_parts (cell b).delivered _ _ _ _ d (all_fit-at cell n b (ground arith) all)
      | inr high ↦ absurd (ground (arith, far b (ground arith), d))
    ]
