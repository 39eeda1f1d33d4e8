-- ===== src/Tests/SecpTests.antt =====
-- The certificates of single signatures.
use kauri_public.Base.{
  ℕ, ◌+◌, ◌<◌, ◌≡◌, ◌↔◌, refl, true, some, List, [], ◌∷◌, ◌++◌, arith, contains,
}
use kauri_public.Base.Exec.{ok}
use kauri_public.Base.Maps
use kauri_public.Crypto.Secp.{PartCertSecp, QuorumCertSecp, create, verify}
use kauri_public.Crypto.Secp.Signers.{InSync, AllSigned}
use kauri_public.Crypto.Secp.Calls.{Call, part, merge, run, verify-run}
use kauri_public.Wire.SecpCerts.{put_secp, get_secp, get_secp-put_secp}
use kauri_public.Tests.CryptoTests.{toy_library, toy_library-BitLaws, toy_keys}
use kauri_public.Tests.WireTests.{
  list_library, toy_wire, toy_wire-WireLaws, one, one-get, members, members-get, AnySig, AnyBits,
}

abbrev signature : ℕ → PartCertSecp toy_library
signature k = record { obj_hash = 9; sig = k + 9 }

-- The second part of replica 1 is not taken, and the certificate for another block is refused.
abbrev three_calls : List (Call toy_library)
three_calls =
    part 1 (signature 10)
    ∷ part 1 (signature 77)
    ∷ part 3 (signature 30)
    ∷ merge (create toy_library 4 8)
    ∷ []

verify_three : (verify 0 toy_keys (run (create toy_library 4 9) three_calls)).0 ≡ ok true
unfolding verify run create Maps.find Maps.insert
verify_three = refl

verify-run_example :
    let c = run (create toy_library 4 9) three_calls in
    ((verify 0 toy_keys c).1 ≡ c) × (((verify 0 toy_keys c).0 ≡ ok true) ↔ AllSigned toy_keys c 0 4)
unfolding create
verify-run_example =
    verify-run toy_library-BitLaws 0 toy_keys 4 9 three_calls
      (omega arith, (omega arith, (omega arith, (tt, tt))))

abbrev two_sigs : QuorumCertSecp list_library
two_sigs = record { obj_hash = 9; rids = 1 ∷ 3 ∷ []; sigs = (3, 39) ∷ (1, 19) ∷ [] }

two_sigs-InSync : InSync two_sigs
unfolding contains Maps.find
two_sigs-InSync i = ground arith

get_secp-put_secp_example :
    (out : List ℕ) × (sigs : List (ℕ × ℕ)) × (put_secp toy_wire list_library one members two_sigs
      ≡ some out)
    × (get_secp toy_wire list_library one members (out ++ 5 ∷ [])
        ≡ some (record { obj_hash = 9; rids = 1 ∷ 3 ∷ []; sigs = sigs }, 5 ∷ []))
    × ((j : ℕ)
        → j < 4
        → contains j (1 ∷ 3 ∷ []) ≡ true
        → Maps.find j sigs ≡ Maps.find j two_sigs.sigs)
get_secp-put_secp_example =
    get_secp-put_secp toy_wire list_library one members toy_wire-WireLaws AnySig one-get AnyBits
      members-get two_sigs (5 ∷ []) two_sigs-InSync (λ j s e. tt) (omega arith) tt
