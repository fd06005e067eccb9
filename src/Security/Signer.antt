-- ===== src/Security/Signer.antt =====
-- src/security/mavlink_signing.rs. HMAC-SHA256 is a parameter that maps a key and the data to the
-- bytes of the code; the atomic counter is a field that an operation returns anew.
use ruv_drone.Base.{ℕ, zero, suc, ◌+◌, ◌-◌, ◌%◌, ◌/◌, List, [], ◌∷◌, ◌++◌, take, range_from, u64}
use ruv_drone.Base.{Bool, true, false, ◌==◌, ◌&&◌, ◌||◌, saturating_sub}
pub mod Window
mod Tests

pub record MavlinkSigner : Type 0 where
  pub key : List ℕ
  pub link_id : ℕ
  pub timestamp : ℕ

unfoldable pub new : List ℕ → ℕ → MavlinkSigner
new key link_id = record { key = key; link_id = link_id; timestamp = 1 }

-- The lowest bytes of a number, the least significant first: 8 of them are `u64::to_le_bytes`.
abbrev pub to_le_bytes : ℕ → ℕ → List ℕ
to_le_bytes zero x = []
to_le_bytes (suc n) x = x % 256 ∷ to_le_bytes n (x / 256)

-- `==` of two slices of bytes.
abbrev pub same_bytes : List ℕ → List ℕ → Bool
same_bytes [] [] = true
same_bytes [] (y ∷ ys) = false
same_bytes (x ∷ xs) [] = false
same_bytes (x ∷ xs) (y ∷ ys) = (x == y) && same_bytes xs ys

-- The counter before the step, which wraps around as `fetch_add` does.
unfoldable pub next_timestamp : MavlinkSigner → MavlinkSigner × ℕ
next_timestamp s = (record s { timestamp = u64 (s.timestamp + 1) }, s.timestamp)

module _ (hmac : List ℕ → List ℕ → List ℕ) where
  -- The first six bytes of the code over the link, six bytes of the timestamp and the message.
  unfoldable pub signature_at : MavlinkSigner → ℕ → List ℕ → List ℕ
  signature_at s ts message_bytes =
      take 6 (hmac s.key ((s.link_id ∷ []) ++ take 6 (to_le_bytes 8 ts) ++ message_bytes))

  unfoldable pub sign : MavlinkSigner → List ℕ → MavlinkSigner × List ℕ
  unfolding next_timestamp
  sign s message_bytes = let (t, ts) = next_timestamp s in (t, signature_at s ts message_bytes)

  -- The loop of `verify` over the timestamps.
  abbrev pub verify_among : MavlinkSigner → List ℕ → List ℕ → List ℕ → Bool
  verify_among s message_bytes signature [] = false
  verify_among s message_bytes signature (ts ∷ rest) =
      same_bytes (signature_at s ts message_bytes) signature
      || verify_among s message_bytes signature rest

  -- `start..=end`.
  abbrev pub window : ℕ → List ℕ
  window current_ts =
      let start = saturating_sub current_ts 32 in
      range_from start (u64 (current_ts + 1) + 1 - start)

  unfoldable pub verify : MavlinkSigner → List ℕ → List ℕ → Bool
  verify s message_bytes signature = verify_among s message_bytes signature (window s.timestamp)
