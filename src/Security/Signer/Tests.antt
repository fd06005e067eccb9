-- ===== src/Security/Signer/Tests.antt =====
-- A signer of src/security/mavlink_signing.rs, with a code that repeats its data.
use ruv_drone.Base.{ℕ, ◌↔◌, ◌≡◌, ◌++◌, refl, arith, true, false, List, [], ◌∷◌}
use ruv_drone.Security.Signer.{MavlinkSigner, new, next_timestamp, sign, signature_at, verify}
use ruv_drone.Security.Signer.Window.{IsRecent, sign_all, verify-sign, verify_iff}

abbrev repeats : List ℕ → List ℕ → List ℕ
repeats key bytes = bytes ++ key

abbrev signer : MavlinkSigner
signer = new (7 ∷ 7 ∷ []) 1

abbrev heartbeat : List ℕ
heartbeat = 254 ∷ 9 ∷ []

abbrev later : MavlinkSigner
later = sign_all repeats signer (heartbeat ∷ [] ∷ heartbeat ∷ [])

unfoldable fourth : List ℕ
unfolding sign new next_timestamp signature_at
fourth = (sign repeats later heartbeat).1

fourth_bytes : fourth ≡ 1 ∷ 4 ∷ 0 ∷ 0 ∷ 0 ∷ 0 ∷ []
unfolding fourth sign new next_timestamp signature_at
fourth_bytes = refl

-- A signer of the same key that has signed nothing does not verify the fourth message.
fourth_elsewhere : verify repeats signer heartbeat fourth ≡ false
unfolding fourth sign new next_timestamp signature_at verify
fourth_elsewhere = refl

verify-sign_example :
    let (t, signature) = sign repeats signer heartbeat in
    verify repeats (sign_all repeats t (heartbeat ∷ [] ∷ [])) heartbeat signature ≡ true
unfolding new
verify-sign_example =
    verify-sign repeats signer heartbeat (heartbeat ∷ [] ∷ []) (omega arith) (omega arith)

verify_iff_example : (verify repeats signer heartbeat (1 ∷ 2 ∷ 0 ∷ 0 ∷ 0 ∷ 0 ∷ []) ≡ true) ↔ (
    (ts : ℕ) × IsRecent 1 ts
    × (signature_at repeats signer ts heartbeat ≡ 1 ∷ 2 ∷ 0 ∷ 0 ∷ 0 ∷ 0 ∷ []))
unfolding new
verify_iff_example = verify_iff repeats signer heartbeat (1 ∷ 2 ∷ 0 ∷ 0 ∷ 0 ∷ 0 ∷ []) (omega arith)
