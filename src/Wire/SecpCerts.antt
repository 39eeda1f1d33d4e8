-- ===== src/Wire/SecpCerts.antt =====
-- `serialize` and `unserialize` of `QuorumCertSecp256k1` of include/hotstuff/crypto.h: the signatures
-- are written in the order of their bits, without the replicas' numbers.
use kauri_public.Base.{
  true_ne_false, ℕ, zero, suc, ◌+◌, ◌^◌, ◌≤◌, ◌<◌, ◌≡◌, ◌≢◌, refl, sym, ◌∙◌, ap, subst, inl, inr,
  true, false, Option, none, some, List, [], ◌++◌, arith, ◌==◌, ==_iff, is_some, Bool-cases,
  Option-cases, if◌then◌else◌,
}
use mathlib.Core.List.{append_assoc}
use kauri_public.Base.Maps
use kauri_public.Crypto.AggBls.Interface.{Library}
use kauri_public.Crypto.Secp.{QuorumCertSecp}
use kauri_public.Crypto.Secp.Signers.{InSync}
use kauri_public.Wire.Stream.{Get, Codec, RoundTrips, pass, done, ◌>>=◌, Wire, WireLaws}

module _ (W : Wire) (L : Library) (codec : Codec L.Sig) (bits : Codec L.Bits) where
  -- `sigs.at(i)` throws where there is no signature.
  abbrev put_one : Option L.Sig → Option (List ℕ) → Option (List ℕ)
  put_one none rest = none
  put_one (some s) none = none
  put_one (some s) (some out) = some (codec.put s ++ out)

  -- The signatures of the bits `i`, .., `i + k - 1`.
  unfoldable pub put_sigs : QuorumCertSecp L → ℕ → ℕ → Option (List ℕ)
  unfolding Maps.find
  put_sigs c zero i = some []
  put_sigs c (suc k) i =
      let rest = put_sigs c k (i + 1) in
      if L.get_bit c.rids i then put_one (Maps.find i c.sigs) rest else rest

  abbrev put_rest : QuorumCertSecp L → Option (List ℕ) → Option (List ℕ)
  put_rest c none = none
  put_rest c (some out) = some (W.hash.put c.obj_hash ++ (bits.put c.rids ++ out))

  unfoldable pub put_secp : QuorumCertSecp L → Option (List ℕ)
  unfolding put_sigs
  put_secp c = put_rest c (put_sigs c (L.size_bits c.rids) 0)

  -- s >> sigs[i]
  unfoldable pub get_sigs : L.Bits → ℕ → ℕ → List (ℕ × L.Sig) → Get (List (ℕ × L.Sig))
  unfolding Maps.put
  get_sigs rids zero i sigs s = some (sigs, s)
  get_sigs rids (suc k) i sigs s =
      let skip = get_sigs rids k (i + 1) sigs s in
      if L.get_bit rids i
      then pass (codec.get s) (λ x. get_sigs rids k (i + 1) (Maps.put i x sigs))
      else skip

  -- Into a certificate from the default constructor.
  unfoldable pub get_secp : Get (QuorumCertSecp L)
  unfolding get_sigs
  get_secp = do
    h ← W.hash.get
    rids ← bits.get
    sigs ← get_sigs rids (L.size_bits rids) 0 []
    done (record { obj_hash = h; rids = rids; sigs = sigs })

  module _ (laws : WireLaws W) (P : L.Sig → Type 0) (codec-get : RoundTrips codec P)
      (Q : L.Bits → Type 0) (bits-get : RoundTrips bits Q) where
    -- The signatures of the bits from `first` to `end` are those of `c`, and below they are those of
    -- `old`.
    abbrev Restored : QuorumCertSecp L → ℕ → ℕ → List (ℕ × L.Sig) → List (ℕ × L.Sig) → Type 0
    Restored c first end old new =
        ((j : ℕ)
          → first ≤ j
          → j < end
          → L.get_bit c.rids j ≡ true
          → Maps.find j new ≡ Maps.find j c.sigs)
        × ((j : ℕ) → j < first → Maps.find j new ≡ Maps.find j old)

    abbrev Writes : QuorumCertSecp L → ℕ → ℕ → List (ℕ × L.Sig) → List ℕ → Type 0
    Writes c k i old rest =
        (out : List ℕ) × (new : List (ℕ × L.Sig)) × (put_sigs c k i ≡ some out)
        × (get_sigs c.rids k i old (out ++ rest) ≡ some (new, rest))
        × Restored c i (i + k) old new

    one_more :
        (c : QuorumCertSecp L) (k i : ℕ) (old : List (ℕ × L.Sig)) (rest : List ℕ) (s : L.Sig)
        → P s
        → L.get_bit c.rids i ≡ true
        → Maps.find i c.sigs ≡ some s
        → Writes c k (i + 1) (Maps.put i s old) rest
        → Writes c (suc k) i old rest
    unfolding put_sigs get_sigs
    one_more c k i old rest s good set found (out, new, written, read, (same, below)) = (
      codec.put s ++ out,
      new,
      rw set (rw found (rw written refl)),
      rw set (rw (append_assoc (codec.put s) out rest) (rw (codec-get s (out ++ rest) good) read)),
      (
        λ j low high bit. elim (Bool-cases (i == j)) [
          | inl at_i ↦
              let e : i ≡ j = (==_iff i j).0 at_i in
              subst (λ n. Maps.find n new ≡ Maps.find n c.sigs) e
                (below i (omega arith) ∙ Maps.find-put i i s old ∙ own ∙ sym found)
          | inr after ↦
              same j (let ne : i ≢ j = λ e. ground arith in ground arith) (omega arith) bit
        ],
        λ j low. below j (omega arith) ∙ Maps.find-put i j s old ∙ apart j low,
      ),
    )
      where
        own : (if i == i then some s else Maps.find i old) ≡ some s
        own = ground arith

        apart : (j : ℕ) → j < i → (if i == j then some s else Maps.find j old) ≡ Maps.find j old
        apart j low = ground arith

    no_more :
        (c : QuorumCertSecp L) (k i : ℕ) (old : List (ℕ × L.Sig)) (rest : List ℕ)
        → L.get_bit c.rids i ≡ false
        → Writes c k (i + 1) old rest
        → Writes c (suc k) i old rest
    unfolding put_sigs get_sigs
    no_more c k i old rest unset (out, new, written, read, (same, below)) = (
      out,
      new,
      rw unset written,
      rw unset read,
      (
        λ j low high bit. elim (Bool-cases (i == j)) [
          | inl at_i ↦
              absurd (
                true_ne_false (sym bit ∙ ap (L.get_bit c.rids) (sym ((==_iff i j).0 at_i)) ∙ unset))
          | inr after ↦
              same j (let ne : i ≢ j = λ e. ground arith in ground arith) (omega arith) bit
        ],
        λ j low. below j (omega arith),
      ),
    )

    sigs-Writes :
        (c : QuorumCertSecp L) (k i : ℕ) (old : List (ℕ × L.Sig)) (rest : List ℕ)
        → InSync c
        → ((j : ℕ) (s : L.Sig) → Maps.find j c.sigs ≡ some s → P s)
        → Writes c k i old rest
    unfolding put_sigs get_sigs
    sigs-Writes c zero i old rest sync good =
        ([], old, refl, refl, (λ j low high bit. absurd (omega arith), λ j low. refl))
    sigs-Writes c (suc k) i old rest sync good = elim (Bool-cases (L.get_bit c.rids i)) [
      | inl set ↦ elim (Option-cases (Maps.find i c.sigs)) [
        | inl missing ↦ absurd (true_ne_false (sym set ∙ sync i ∙ ap is_some missing))
        | inr (s, found) ↦
            one_more c k i old rest s (good i s found) set found
              (sigs-Writes c k (i + 1) (Maps.put i s old) rest sync good)
      ]
      | inr unset ↦ no_more c k i old rest unset (sigs-Writes c k (i + 1) old rest sync good)
    ]

    -- A certificate whose bits agree with its signatures, with a hash of 256 bits and bits and
    -- signatures that are read as they were written, is written; and it is read with the same hash and
    -- bits, and with the same signature for each replica whose bit is set.
    pub get_secp-put_secp :
        (c : QuorumCertSecp L) (rest : List ℕ)
        → InSync c
        → ((j : ℕ) (s : L.Sig) → Maps.find j c.sigs ≡ some s → P s)
        → c.obj_hash < 2 ^ 256
        → Q c.rids
        → (out : List ℕ) × (sigs : List (ℕ × L.Sig)) × (put_secp c ≡ some out)
          × (get_secp (out ++ rest)
              ≡ some (record { obj_hash = c.obj_hash; rids = c.rids; sigs = sigs }, rest))
          × ((j : ℕ)
              → j < L.size_bits c.rids
              → L.get_bit c.rids j ≡ true
              → Maps.find j sigs ≡ Maps.find j c.sigs)
    unfolding put_secp get_secp
    get_secp-put_secp c rest sync good small q =
        let (out, new, written, read, (same, below)) =
          sigs-Writes c (L.size_bits c.rids) 0 [] rest sync good in
        (
          W.hash.put c.obj_hash ++ (bits.put c.rids ++ out),
          new,
          ap (put_rest c) written,
          simp append_assoc
              (rw (laws.hash-get c.obj_hash _ small, bits-get c.rids _ q) (rw read refl)),
          λ j high bit. same j (omega arith) (omega arith) bit,
        )
