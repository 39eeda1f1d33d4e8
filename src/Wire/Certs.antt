-- ===== src/Wire/Certs.antt =====
-- `serialize` and `unserialize` of `PartCertBLSAgg` and `QuorumCertAggBLS` of
-- include/hotstuff/crypto.h. Those of a signature and of `salticidae::Bits` call libraries, and are
-- parameters.
use kauri_public.Base.{
  ℕ, ◌^◌, ◌<◌, ◌≡◌, ◌⊎◌, refl, sym, ◌∙◌, ap, Bool, true, false, Option, none, some, List, [], ◌∷◌,
  ◌++◌, arith, ◌==◌, if◌then◌else◌,
}
use mathlib.Core.List.{append_assoc}
use kauri_public.Crypto.AggBls.Interface.{Library}
use kauri_public.Crypto.AggBls.{PartCertAgg, QuorumCertAgg, count_bits, calculate_n}
use kauri_public.Crypto.AggBls.Count.{IsCounted}
use kauri_public.Crypto.AggBls.Aggregate.{IsPacked}
use kauri_public.Wire.Stream.{
  Get, Codec, PartialCodec, Reads, RoundTrips, done, ◌>>=◌, Wire, WireLaws,
}

module _ (W : Wire) (L : Library) (sigs : Codec L.Sig) (bits : Codec L.Bits) where
  unfoldable pub part_codec : Codec (PartCertAgg L)
  part_codec = record {
    put = λ p. W.hash.put p.obj_hash ++ sigs.put p.sig;
    get = (do h ← W.hash.get; s ← sigs.get; done (record { obj_hash = h; sig = s }));
  }

  abbrev put_bool : Bool → List ℕ
  put_bool b = W.u8.put (if b then 1 else 0)

  abbrev put_combined : QuorumCertAgg L → Option L.Sig → List L.Sig → Option (List ℕ)
  put_combined c none parts = some (W.hash.put c.obj_hash ++ (bits.put c.rids ++ put_bool false))
  put_combined c (some s) [] =
      some (W.hash.put c.obj_hash ++ (bits.put c.rids ++ (put_bool true ++ sigs.put s)))
  put_combined c (some s) (x ∷ parts) = none

  -- `none` where it throws; parts that are not aggregated are not written.
  unfoldable pub put_cert : QuorumCertAgg L → Option (List ℕ)
  put_cert c = put_combined c c.the_sig c.sigs

  abbrev get_combined : Bool → Get (Option L.Sig)
  get_combined true = do s ← sigs.get; done (some s)
  get_combined false = done none

  -- Into a certificate from the default constructor.
  unfoldable pub get_cert : Get (QuorumCertAgg L)
  unfolding calculate_n
  get_cert = do
    h ← W.hash.get
    rids ← bits.get
    combined ← W.u8.get
    the_sig ← get_combined (combined == 1)
    done (calculate_n (record { obj_hash = h; rids = rids; the_sig = the_sig; sigs = []; n = 0 }))

  abbrev pub cert_codec : PartialCodec (QuorumCertAgg L)
  cert_codec = record { put = put_cert; get = get_cert }

  -- What the receiver has of a certificate: its count is that of its signers, and the parts that were
  -- not aggregated are not sent.
  abbrev pub received : QuorumCertAgg L → QuorumCertAgg L
  received c = record c { sigs = []; n = count_bits L c.rids (L.size_bits c.rids) 0 }

  module _ (laws : WireLaws W) (P : L.Sig → Type 0) (sigs-get : RoundTrips sigs P)
      (Q : L.Bits → Type 0) (bits-get : RoundTrips bits Q) where
    pub part_codec-RoundTrips : RoundTrips part_codec (λ p. (p.obj_hash < 2 ^ 256) × P p.sig)
    unfolding part_codec
    part_codec-RoundTrips p rest h =
        simp append_assoc (rw (laws.hash-get p.obj_hash _ h.0, sigs-get p.sig rest h.1) refl)

    abbrev pub AllOf : Option L.Sig → Type 0
    AllOf none = Unit
    AllOf (some s) = P s

    abbrev Sendable : QuorumCertAgg L → Type 0
    Sendable c = (c.obj_hash < 2 ^ 256) × Q c.rids × AllOf c.the_sig × IsCounted c

    fresh : QuorumCertAgg L → Option L.Sig → QuorumCertAgg L
    fresh c o =
        calculate_n (record { obj_hash = c.obj_hash; rids = c.rids; the_sig = o; sigs = []; n = 0 })

    read_combined :
        (c : QuorumCertAgg L) (o : Option L.Sig) (parts : List L.Sig)
        → c.obj_hash < 2 ^ 256
        → Q c.rids
        → AllOf o
        → (o ≡ none) ⊎ (parts ≡ [])
        → (out : List ℕ) × (put_combined c o parts ≡ some out)
          × ((rest : List ℕ) → get_cert (out ++ rest) ≡ some (fresh c o, rest))
    unfolding get_cert fresh
    read_combined c none parts h q p packed = (
      _,
      refl,
      λ rest. simp append_assoc (
          rw (laws.hash-get c.obj_hash _ h, bits-get c.rids _ q, laws.u8-get 0 _ (omega arith))
            refl),
    )
    read_combined c (some s) [] h q p packed = (
      _,
      refl,
      λ rest. simp append_assoc (
          rw
            (
              laws.hash-get c.obj_hash _ h,
              bits-get c.rids _ q,
              laws.u8-get 1 _ (omega arith),
              sigs-get s rest p,
            )
            refl),
    )
    read_combined c (some s) (x ∷ parts) h q p packed = absurd (ground arith)

    -- A certificate that never holds an aggregate and parts at once, and whose counter agrees with
    -- its bits, is written; and it is read with the same hash, signers, count and aggregate, and
    -- without the parts that were not aggregated.
    pub get_cert-put_cert :
        (c : QuorumCertAgg L) (rest : List ℕ)
        → IsPacked c
        → Sendable c
        → (out : List ℕ) × (put_cert c ≡ some out)
          × (get_cert (out ++ rest) ≡ some (record c { sigs = [] }, rest))
    unfolding put_cert fresh calculate_n
    get_cert-put_cert c rest packed good =
        let (out, written, read) = read_combined c c.the_sig c.sigs good.0 good.1 good.2 packed in
        (
          out,
          written,
          read rest ∙ ap (λ n. some (record c { sigs = []; n = n }, rest)) (sym good.3),
        )

    -- A certificate with fields in range that never holds an aggregate and parts at once, whatever its
    -- counter is.
    abbrev pub CanBeSent : QuorumCertAgg L → Type 0
    CanBeSent c = (c.obj_hash < 2 ^ 256) × Q c.rids × AllOf c.the_sig × IsPacked c

    pub cert_codec-Reads : Reads cert_codec CanBeSent received
    unfolding put_cert fresh calculate_n
    cert_codec-Reads c good = read_combined c c.the_sig c.sigs good.0 good.1 good.2 good.3
