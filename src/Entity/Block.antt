-- ===== src/Entity/Block.antt =====
-- The class `Block` of include/hotstuff/entity.h. A `block_t` is a counted pointer to a shared
-- object, here an address; `nullptr` is `none`. `extra` is a list of bytes, a hash a number.
use kauri_public.Base.{ℕ, Bool, false, Option, none, some, List, [], ◌∷◌}
use kauri_public.Base.Exec.{Result, ok, err, undefined}
use kauri_public.Crypto.Scheme.{Scheme}

pub record Block (C : Scheme) : Type 0 where
  pub parent_hashes : List ℕ
  pub cmds : List ℕ
  pub qc : Option C.QuorumCert
  pub extra : List ℕ
  -- derived from the above
  pub hash : ℕ
  pub parents : List (Option ℕ)
  pub qc_ref : Option ℕ
  pub self_qc : Option C.QuorumCert
  pub height : ℕ
  pub delivered : Bool
  pub decision : ℕ
  pub voted : List ℕ

-- Block(), whose hash is the default `uint256_t`
unfoldable pub empty_block : (C : Scheme) → ℕ → Block C
empty_block C null_hash = record {
  parent_hashes = [];
  cmds = [];
  qc = none;
  extra = [];
  hash = null_hash;
  parents = [];
  qc_ref = none;
  self_qc = none;
  height = 0;
  delivered = false;
  decision = 0;
  voted = [];
}

-- Block(delivered, decision)
unfoldable pub bare_block : (C : Scheme) → Bool → ℕ → Block C
bare_block C delivered decision = record {
  parent_hashes = [];
  cmds = [];
  qc = some C.dummy;
  extra = [];
  hash = C.block_hash [] [] C.dummy [];
  parents = [];
  qc_ref = none;
  self_qc = none;
  height = 0;
  delivered = delivered;
  decision = decision;
  voted = [];
}

-- Block(parents, cmds, qc, extra, height, qc_ref, self_qc), the parents with their hashes
unfoldable pub new_block :
    (C : Scheme)
    → List (Option ℕ)
    → List ℕ
    → List ℕ
    → C.QuorumCert
    → List ℕ
    → ℕ
    → Option ℕ
    → Block C
new_block C parents parent_hashes cmds qc extra height qc_ref = record {
  parent_hashes = parent_hashes;
  cmds = cmds;
  qc = some qc;
  extra = extra;
  hash = C.block_hash parent_hashes cmds qc extra;
  parents = parents;
  qc_ref = qc_ref;
  self_qc = none;
  height = height;
  delivered = false;
  decision = 0;
  voted = [];
}

-- parents[0]
abbrev pub first_of_list : List (Option ℕ) → Result (Option ℕ)
first_of_list [] = err undefined
first_of_list (p ∷ ps) = ok p
