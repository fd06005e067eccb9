-- ===== src/Security/Signer/Window.antt =====
-- Which signatures `verify` of src/security/mavlink_signing.rs accepts.
use ruv_drone.Base.{
  ℕ, zero, suc, ◌+◌, ◌≤◌, ◌<◌, ◌≡◌, ◌↔◌, ◌⊎◌, refl, ap, ◌∙◌, subst, true, List, [], ◌∷◌, arith,
  length, range_from, Bool-cases, inl, inr,
}
use ruv_drone.Security.Signer.{
  MavlinkSigner, next_timestamp, same_bytes, sign, signature_at, verify, verify_among,
}

pub same_bytes_refl : (xs : List ℕ) → same_bytes xs xs ≡ true
same_bytes_refl [] = refl
same_bytes_refl (x ∷ xs) = ground (arith, same_bytes_refl xs)

pub same_bytes→eq : (xs ys : List ℕ) → same_bytes xs ys ≡ true → xs ≡ ys
same_bytes→eq [] [] h = refl
same_bytes→eq [] (y ∷ ys) h = cc
same_bytes→eq (x ∷ xs) [] h = cc
same_bytes→eq (x ∷ xs) (y ∷ ys) h = ground (arith, same_bytes→eq xs ys)

-- A timestamp within the 32 before a counter, the counter itself or the next.
abbrev pub IsRecent : ℕ → ℕ → Type 0
IsRecent current ts = (current ≤ ts + 32) × (ts ≤ current + 1)

at_or_after : (i ts : ℕ) → i ≤ ts → (i ≡ ts) ⊎ (i + 1 ≤ ts)
at_or_after i ts h = omega arith

module _ (hmac : List ℕ → List ℕ → List ℕ) (s : MavlinkSigner) (message signature : List ℕ) where
  verify_among-in :
      (i n ts : ℕ)
      → i ≤ ts
      → ts < i + n
      → signature_at hmac s ts message ≡ signature
      → verify_among hmac s message signature (range_from i n) ≡ true
  verify_among-in i zero ts l g h = absurd (omega (arith, l, g))
  verify_among-in i (suc n) ts l g h = elim (at_or_after i ts l) [
    | inl e ↦
        let same = signature_at hmac s i message in
        let k =
          subst (λ z. same_bytes same z ≡ true) (ap (λ t. signature_at hmac s t message) e ∙ h)
            (same_bytes_refl same) in
        rw (k) refl
    | inr e ↦ let k = verify_among-in (i + 1) n ts e (omega (arith, g)) h in ground (arith, k)
  ]

  verify_among-found :
      (i n : ℕ)
      → verify_among hmac s message signature (range_from i n) ≡ true
      → (ts : ℕ) × (i ≤ ts) × (ts < i + n) × (signature_at hmac s ts message ≡ signature)
  verify_among-found i zero h = cc
  verify_among-found i (suc n) h =
      elim (Bool-cases (same_bytes (signature_at hmac s i message) signature)) [
        | inl e ↦ (i, omega arith, omega arith, same_bytes→eq _ signature e)
        | inr e ↦
            let (ts, l, g, k) = verify_among-found (i + 1) n (ground (arith, h, e)) in
            (ts, omega (arith, l), omega (arith, g), k)
      ]

  -- Where the counter is below u64::MAX, a signature verifies exactly if it is the one of the
  -- message at a timestamp from 32 before the counter to the next.
  pub verify_iff :
      s.timestamp < 18446744073709551615
      → (verify hmac s message signature ≡ true)
        ↔ ((ts : ℕ) × IsRecent s.timestamp ts × (signature_at hmac s ts message ≡ signature))
  unfolding verify
  verify_iff h = (
    λ v.
        let (ts, l, g, k) = verify_among-found _ _ v in
        (ts, (omega (arith, l), omega (arith, g, h)), k),
    λ (ts, (l, g), k). verify_among-in _ _ ts (omega (arith, l)) (omega (arith, l, g, h)) k,
  )

module _ (hmac : List ℕ → List ℕ → List ℕ) where
  abbrev pub sign_all : MavlinkSigner → List (List ℕ) → MavlinkSigner
  sign_all s [] = s
  sign_all s (message ∷ messages) = sign_all (sign hmac s message).0 messages

  sign_all-timestamp :
      (s : MavlinkSigner) (messages : List (List ℕ))
      → s.timestamp + length messages < 18446744073709551615
      → ((sign_all s messages).timestamp ≡ s.timestamp + length messages)
        × ((sign_all s messages).key ≡ s.key)
        × ((sign_all s messages).link_id ≡ s.link_id)
  unfolding sign next_timestamp
  sign_all-timestamp s [] h = (omega arith, refl, refl)
  sign_all-timestamp s (m ∷ ms) h =
      let (t, k, l) = sign_all-timestamp (sign hmac s m).0 ms (omega (arith, h)) in
      (omega (arith, t, h), k, l)

  signature_at_kept :
      (s t : MavlinkSigner) (ts : ℕ) (message : List ℕ)
      → t.key ≡ s.key
      → t.link_id ≡ s.link_id
      → signature_at hmac t ts message ≡ signature_at hmac s ts message
  unfolding signature_at
  signature_at_kept s t ts message k l = rw (k, l) refl

  -- A signature verifies over its message, again and again, until its signer has made 32 more.
  pub verify-sign :
      (s : MavlinkSigner) (message : List ℕ) (messages : List (List ℕ))
      → length messages < 32
      → s.timestamp + 1 + length messages < 18446744073709551615
      → let (t, signature) = sign hmac s message in
        verify hmac (sign_all t messages) message signature ≡ true
  unfolding sign next_timestamp
  verify-sign s message messages h g =
      let (t, signature) = sign hmac s message in
      let last = sign_all t messages in
      let (e, k, l) = sign_all-timestamp t messages (omega (arith, g)) in
      (verify_iff hmac last message signature (omega (arith, e, g))).1 (
        s.timestamp,
        (omega (arith, e, h, g), omega (arith, e, g)),
        signature_at_kept s last s.timestamp message k l,
      )
