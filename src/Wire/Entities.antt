-- ===== src/Wire/Entities.antt =====
-- `Block::serialize` and `Block::unserialize` of src/entity.cpp.
use kauri_public.Base.{
  ℕ, ◌^◌, ◌%◌, ◌<◌, ◌≡◌, refl, ◌∙◌, ap, Option, none, some, List, ◌++◌, arith, length, u32_mod, All,
}
use mathlib.Core.List.{append_assoc}
use kauri_public.Crypto.Scheme.{Scheme}
use kauri_public.Entity.Block.{Block, empty_block}
use kauri_public.Wire.Stream.{
  Get, PartialCodec, Reads, pass, done, ◌>>=◌, Wire, WireLaws, Below, put_all, get_all, get_bytes,
  get_all-put_all, get_bytes-append,
}

-- `htole((uint32_t)n)`, and `letoh` of what is read.
unfoldable pub put_size : Wire → ℕ → List ℕ
put_size W n = W.u32.put (W.htole (n % u32_mod))

unfoldable pub get_size : Wire → Get ℕ
get_size W = do n ← W.u32.get; done (W.letoh n)

pub get_size-put_size :
    (W : Wire) (n : ℕ) (rest : List ℕ)
    → WireLaws W
    → n < 2 ^ 32
    → get_size W (put_size W n ++ rest) ≡ some (n, rest)
unfolding get_size put_size
get_size-put_size W n rest laws small =
    let same : n % u32_mod ≡ n = omega arith in
    ap (λ m. get_size W (W.u32.put (W.htole m) ++ rest)) same
    ∙ ap (λ o. pass o (λ m. done (W.letoh m)))
        (laws.u32-get (W.htole n) rest (laws.htole_small n small))
    ∙ ap (λ m. some (m, rest)) (laws.letoh-htole n small)

module _ {C : Scheme} (W : Wire) (certs : PartialCodec C.QuorumCert) where
  abbrev write_around : Block C → Option (List ℕ) → Option (List ℕ)
  write_around b none = none
  write_around b (some bytes) = some (
      put_size W (length b.parent_hashes)
      ++ (put_all W.hash b.parent_hashes
          ++ (put_size W (length b.cmds)
              ++ (put_all W.hash b.cmds ++ (bytes ++ (put_size W (length b.extra) ++ b.extra))))))

  abbrev write_with : Block C → Option C.QuorumCert → Option (List ℕ)
  write_with b none = none
  write_with b (some qc) = write_around b (certs.put qc)

  -- `none` where the certificate is a null pointer, which is followed, or where it throws.
  unfoldable pub serialize : Block C → Option (List ℕ)
  unfolding put_size put_all
  serialize b = write_with b b.qc

  -- The block that is read, where the rest is what the default constructor sets.
  unfoldable pub read_block : List ℕ → List ℕ → C.QuorumCert → List ℕ → Block C
  unfolding empty_block
  read_block parent_hashes cmds qc extra =
      record (empty_block C (C.block_hash parent_hashes cmds qc extra)) {
        parent_hashes = parent_hashes;
        cmds = cmds;
        qc = some qc;
        extra = extra;
      }

  unfoldable pub unserialize : Get (Block C)
  unfolding get_size get_all get_bytes read_block
  unserialize = do
    n ← get_size W
    parent_hashes ← get_all W.hash n
    m ← get_size W
    cmds ← get_all W.hash m
    qc ← certs.get
    k ← get_size W
    extra ← get_bytes k
    done (read_block parent_hashes cmds qc extra)

  module _ (laws : WireLaws W) (P : C.QuorumCert → Type 0) (norm : C.QuorumCert → C.QuorumCert)
      (certs-get : Reads certs P norm) where
    unserialize-write :
        (b : Block C) (qc : C.QuorumCert) (bytes rest : List ℕ)
        → ((after : List ℕ) → certs.get (bytes ++ after) ≡ some (qc, after))
        → All (Below 256) b.parent_hashes
        → All (Below 256) b.cmds
        → length b.parent_hashes < 2 ^ 32
        → length b.cmds < 2 ^ 32
        → length b.extra < 2 ^ 32
        → unserialize (
            (put_size W (length b.parent_hashes)
              ++ (put_all W.hash b.parent_hashes
                  ++ (put_size W (length b.cmds)
                      ++ (put_all W.hash b.cmds
                          ++ (bytes ++ (put_size W (length b.extra) ++ b.extra))))))
            ++ rest)
          ≡ some (read_block b.parent_hashes b.cmds qc b.extra, rest)
    unfolding unserialize
    unserialize-write b qc bytes rest got parents cmds n m k = simp append_assoc (
        rw
          (
            get_size-put_size W (length b.parent_hashes) _ laws n,
            get_all-put_all W.hash (Below 256) laws.hash-get b.parent_hashes _ parents,
            get_size-put_size W (length b.cmds) _ laws m,
            get_all-put_all W.hash (Below 256) laws.hash-get b.cmds _ cmds,
            got _,
            get_size-put_size W (length b.extra) _ laws k,
            get_bytes-append b.extra rest,
          )
          refl)

    -- The round trip of a block, from what its certificate is read as.
    pub unserialize-serialize :
        (b : Block C) (qc : C.QuorumCert)
        → b.qc ≡ some qc
        → P qc
        → All (Below 256) b.parent_hashes
        → All (Below 256) b.cmds
        → length b.parent_hashes < 2 ^ 32
        → length b.cmds < 2 ^ 32
        → length b.extra < 2 ^ 32
        → (out : List ℕ) × (serialize b ≡ some out)
          × ((rest : List ℕ)
              → unserialize (out ++ rest)
                ≡ some (read_block b.parent_hashes b.cmds (norm qc) b.extra, rest))
    unfolding serialize
    unserialize-serialize b qc carried good parents cmds n m k =
        let (bytes, put, got) = certs-get qc good in
        (
          _,
          ap (write_with b) carried ∙ ap (write_around b) put,
          λ rest. unserialize-write b (norm qc) bytes rest got parents cmds n m k,
        )
