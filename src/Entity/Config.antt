-- ===== src/Entity/Config.antt =====
-- `ReplicaInfo` and `ReplicaConfig` of include/hotstuff/entity.h. A peer id is a number.
use kauri_public.Base.{ℕ, ◌+◌, Option, none, some, List}
use kauri_public.Base.Exec.{Result, ok, err, unknown_replica}
use kauri_public.Base.Maps
use kauri_public.Crypto.Scheme.{Scheme}

pub record ReplicaInfo (C : Scheme) : Type 0 where
  pub id : ℕ
  pub peer_id : ℕ
  pub pubkey : C.PubKey

-- The constructor sets no option of the tree: `fanout` and the rest have whatever values.
pub record ReplicaConfig (C : Scheme) : Type 0 where
  pub replica_map : List (ℕ × ReplicaInfo C)
  pub nreplicas : ℕ
  pub nmajority : ℕ
  pub fanout : ℕ
  pub piped_latency : ℕ
  pub async_blocks : ℕ

module _ {C : Scheme} where
  abbrev or_unknown : Option (ReplicaInfo C) → Result (ReplicaInfo C)
  or_unknown none = err unknown_replica
  or_unknown (some info) = ok info

  abbrev key_of : Result (ReplicaInfo C) → Result C.PubKey
  key_of (err e) = err e
  key_of (ok info) = ok info.pubkey

  abbrev peer_of : Result (ReplicaInfo C) → Result ℕ
  peer_of (err e) = err e
  peer_of (ok info) = ok info.peer_id

  -- `insert` keeps an entry that is there, and the count grows all the same.
  unfoldable pub add_replica : ℕ → ReplicaInfo C → ReplicaConfig C → ReplicaConfig C
  add_replica rid info c = record c {
    replica_map = Maps.insert rid info c.replica_map;
    nreplicas = c.nreplicas + 1;
  }

  unfoldable pub get_info : ReplicaConfig C → ℕ → Result (ReplicaInfo C)
  get_info c rid = or_unknown (Maps.find rid c.replica_map)

  unfoldable pub get_pubkey : ReplicaConfig C → ℕ → Result C.PubKey
  unfolding get_info
  get_pubkey c rid = key_of (get_info c rid)

  unfoldable pub get_peer_id : ReplicaConfig C → ℕ → Result ℕ
  unfolding get_info
  get_peer_id c rid = peer_of (get_info c rid)
