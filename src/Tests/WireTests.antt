-- ===== src/Tests/WireTests.antt =====
-- The formats, over a stream of numbers in place of bytes.
use kauri_public.Base.{
  ℕ, ◌+◌, ◌≡◌, refl, inl, inr, contains, none, some, List, [], ◌∷◌, ◌++◌, arith, length, ◌==◌,
  if◌then◌else◌,
}
use kauri_public.Crypto.AggBls.Interface.{Library}
use kauri_public.Crypto.AggBls.{QuorumCertAgg, count_bits}
use kauri_public.Core.State.{HotStuffCore, Proposal, Finality}
use kauri_public.Wire.Proposals.{put_proposal, get_proposal, Kept}
use kauri_public.Wire.Stream.{Get, Codec, RoundTrips, Wire, WireLaws, get_bytes, get_bytes-append}
use kauri_public.Wire.Entities.{serialize, unserialize, read_block}
use kauri_public.Wire.Messages.{
  VoteRelay, put_finality, get_finality, IsFinality, get_finality-put_finality, put_req_block,
  get_req_block, get_req_block-put_req_block, put_relay, get_relay,
}
use kauri_public.Wire.Certs.{put_cert, get_cert, get_cert-put_cert}
use kauri_public.Wire.Certs.{cert_codec, CanBeSent}
use kauri_public.Wire.Agg.{
  Agg, IsInRange, unserialize-serialize_bls, get_proposal-put_proposal_bls, get_relay-put_relay_bls,
}
use kauri_public.Wire.Stream.{PartialCodec}
use kauri_public.Crypto.Scheme.{Scheme}
use kauri_public.Crypto.AggBls.{create, clone}
use kauri_public.Entity.Block.{Block, empty_block}
use kauri_public.Core.Setup.{Unset, new_core}
use kauri_public.Tests.Samples.{proposal}

abbrev get_one : Get ℕ
get_one [] = none
get_one (x ∷ s) = some (x, s)

abbrev pub one : Codec ℕ
one = record { put = λ n. n ∷ []; get = get_one }

abbrev pub toy_wire : Wire
toy_wire = record { u8 = one; u16 = one; u32 = one; hash = one; htole = λ n. n; letoh = λ n. n }

pub toy_wire-WireLaws : WireLaws toy_wire
toy_wire-WireLaws = record {
  u8-get = λ n rest h. refl;
  u16-get = λ n rest h. refl;
  u32-get = λ n rest h. refl;
  hash-get = λ n rest h. refl;
  letoh-htole = λ n h. refl;
  htole_small = λ n h. h;
}

abbrev some_finality : Finality
some_finality = record {
  rid = 2;
  decision = 0;
  cmd_idx = 3;
  cmd_height = 5;
  cmd_hash = 70;
  blk_hash = 80;
}

some_finality-IsFinality : IsFinality toy_wire some_finality
some_finality-IsFinality = record {
  rid = omega arith;
  decision = omega arith;
  cmd_idx = omega arith;
  cmd_height = omega arith;
  cmd_hash = omega arith;
  blk_hash = omega arith;
}

get_finality-put_finality_example :
    get_finality toy_wire 0 (put_finality toy_wire some_finality ++ [])
    ≡ some (record some_finality { blk_hash = if 0 == 1 then 80 else 0 }, [])
get_finality-put_finality_example =
    get_finality-put_finality toy_wire some_finality 0 [] toy_wire-WireLaws some_finality-IsFinality

get_req_block-put_req_block_example :
    get_req_block toy_wire (put_req_block toy_wire (4 ∷ 5 ∷ []) ++ 6 ∷ [])
    ≡ some (4 ∷ 5 ∷ [], 6 ∷ [])
get_req_block-put_req_block_example =
    get_req_block-put_req_block toy_wire (4 ∷ 5 ∷ []) (6 ∷ []) toy_wire-WireLaws (omega arith)
      (omega arith, (omega arith, tt))

-- A bit set is the list of its members.
abbrev pub list_library : Library
list_library = record {
  Sig = ℕ;
  Key = ℕ;
  Secret = ℕ;
  sign = λ k h. k + h;
  verify_one = λ k h s. s == k + h;
  aggregate = λ ss. length ss;
  fast_verify = λ ks h s. s == h;
  Bits = List ℕ;
  clear_bits = λ n. [];
  set_bit = λ i b. i ∷ b;
  get_bit = λ b i. contains i b;
  size_bits = λ b. 4;
}

abbrev get_members : Get (List ℕ)
get_members [] = none
get_members (n ∷ s) = get_bytes n s

abbrev pub members : Codec (List ℕ)
members = record { put = λ b. length b ∷ b; get = get_members }

abbrev pub AnyBits : List ℕ → Type 0
AnyBits b = Unit

pub members-get : RoundTrips members AnyBits
members-get b rest h = get_bytes-append b rest

abbrev pub AnySig : ℕ → Type 0
AnySig s = Unit

pub one-get : RoundTrips one AnySig
one-get n rest h = refl

-- Two parts that are not aggregated.
abbrev two_signers : QuorumCertAgg list_library
two_signers = record { obj_hash = 9; rids = 1 ∷ 3 ∷ []; the_sig = none; sigs = 19 ∷ 39 ∷ []; n = 2 }

get_cert-put_cert_example :
    (out : List ℕ) × (put_cert toy_wire list_library one members two_signers ≡ some out)
    × (get_cert toy_wire list_library one members (out ++ 7 ∷ [])
        ≡ some (record two_signers { sigs = [] }, 7 ∷ []))
unfolding count_bits contains
get_cert-put_cert_example =
    get_cert-put_cert toy_wire list_library one members toy_wire-WireLaws AnySig one-get AnyBits
      members-get two_signers (7 ∷ []) (inl refl) (omega arith, tt, tt, refl)

abbrev no_cert : QuorumCertAgg list_library
no_cert = create list_library 4 0

abbrev count_parents : List ℕ → List ℕ → QuorumCertAgg list_library → List ℕ → ℕ
count_parents ps cmds qc extra = 100 + length ps

abbrev agg : Scheme
agg = Agg toy_wire list_library one members no_cert count_parents

abbrev agg_codec : PartialCodec (QuorumCertAgg list_library)
agg_codec = cert_codec toy_wire list_library one members

-- An aggregate of two parts, and its copy.
abbrev aggregated : QuorumCertAgg list_library
aggregated = record { obj_hash = 9; rids = 1 ∷ 3 ∷ []; the_sig = some 7; sigs = []; n = 2 }

abbrev copied : QuorumCertAgg list_library
copied = record { obj_hash = 9; rids = 1 ∷ 3 ∷ []; the_sig = some 7; sigs = []; n = 0 }

copied-CanBeSent :
    CanBeSent toy_wire list_library one members toy_wire-WireLaws AnySig one-get AnyBits members-get
      copied
copied-CanBeSent = (omega arith, tt, tt, inr refl)

-- A block as the program makes it, with a copy of a certificate.
abbrev agg_block : Block agg
agg_block = record (empty_block agg 101) {
  parent_hashes = 100 ∷ [];
  cmds = 5 ∷ 6 ∷ [];
  qc = some copied;
  extra = 8 ∷ [];
}

agg_block-IsInRange : IsInRange {C = agg} agg_block
unfolding empty_block
agg_block-IsInRange = record {
  parents = (omega arith, tt);
  cmds = (omega arith, (omega arith, tt));
  few_parents = omega arith;
  few_cmds = omega arith;
  few_bytes = omega arith;
}

unserialize-serialize_bls_example :
    (out : List ℕ) × (serialize {C = agg} toy_wire agg_codec agg_block ≡ some out)
    × ((rest : List ℕ)
        → unserialize {C = agg} toy_wire agg_codec (out ++ rest)
          ≡ some (
            read_block {C = agg} toy_wire agg_codec (100 ∷ []) (5 ∷ 6 ∷ []) aggregated (8 ∷ []),
            rest,
          ))
unfolding empty_block count_bits contains
unserialize-serialize_bls_example =
    unserialize-serialize_bls toy_wire list_library one members no_cert count_parents
      toy_wire-WireLaws AnySig one-get AnyBits members-get agg_block copied refl copied-CanBeSent
      agg_block-IsInRange

abbrev unset : Unset
unset = record {
  summed_latency = 0;
  processed_blocks = 0;
  fanout = 2;
  piped_latency = 10;
  async_blocks = 0;
  last_block_time = 0;
}

-- One replica has the block at address 0, the other one has just been constructed.
abbrev receiver : HotStuffCore agg
receiver = new_core 1 0 unset (λ n. n)

abbrev sender : HotStuffCore agg
sender = record receiver { heap = record { cell = λ a. agg_block; next = 1 } }

get_proposal-put_proposal_bls_example :
    (out : List ℕ) × (got : Proposal) × (t : HotStuffCore agg) × (put_proposal toy_wire agg_codec
        sender
        (proposal 0)
      ≡ some out)
    × (get_proposal toy_wire agg_codec receiver (out ++ 3 ∷ []) ≡ some ((got, t), 3 ∷ []))
    × (got.proposer ≡ 0)
    × Kept
        (read_block {C = agg} toy_wire agg_codec (100 ∷ []) (5 ∷ 6 ∷ []) aggregated (8 ∷ []))
        receiver
        t
        got.blk
unfolding empty_block count_bits contains
get_proposal-put_proposal_bls_example =
    get_proposal-put_proposal_bls toy_wire list_library one members no_cert count_parents
      toy_wire-WireLaws AnySig one-get AnyBits members-get sender receiver (proposal 0) copied
      (3 ∷ []) refl copied-CanBeSent (omega arith) agg_block-IsInRange

get_relay-put_relay_bls_example :
    let v : VoteRelay agg = record { blk_hash = 9; cert = copied } in
    (out : List ℕ) × (put_relay toy_wire agg_codec v ≡ some out)
    × ((rest : List ℕ)
        → get_relay toy_wire agg_codec (out ++ rest) ≡ some (record v { cert = aggregated }, rest))
unfolding count_bits contains clone
get_relay-put_relay_bls_example =
    get_relay-put_relay_bls toy_wire list_library one members no_cert count_parents
      toy_wire-WireLaws AnySig one-get AnyBits members-get aggregated 9 (omega arith) (omega arith)
      tt tt refl
