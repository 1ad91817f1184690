-- ===== src/Ratchet/Send.antt =====
-- Encrypt of ratchet/message.go, and NextSendingMessageKey of ratchet/wire.go.
pub mod Facts
use signal.Common.{
  Option, none, some, ◌++◌, Bytes, Result, ok, err, plain, counter_overflow, eqb, bytes_beq, take,
  if◌then◌else◌, ◌>>=◌ as bind,
}
use signal.Common.Words.{inc32, max_uint32, zero_key}
use signal.Common.Exec.{Exec, lift, ◌>>=◌}
use signal.Crypto.{Primitives, KeyPair, aes_gcm_encrypt_with_nonce}
use signal.Ratchet.{State, Header, Message, MessageKeys}
use signal.Ratchet.Chain.{kdf_chain, derive_message_keys}
use signal.Ratchet.Encoding.{serialize}

unfoldable pub message_ad : Bytes → Header → Bytes
message_ad ad header = ad ++ serialize header

module _ (P : Primitives) where
  sending_key : Option KeyPair → Exec State (Header × Bytes)
  sending_key none s = (err (plain "encrypt: missing sending DH key"), s)
  sending_key (some dhs) s =
      if bytes_beq s.cks zero_key
      then (err (plain "encrypt: missing sending chain key"), s)
      else if eqb s.ns max_uint32
      then (err counter_overflow, s)
      else let (next, mk) = kdf_chain P s.cks in
        (
          ok (record { dh = dhs.public_key; pn = s.pn; n = s.ns }, mk),
          record s { cks = next; ns = inc32 s.ns },
        )

  unfoldable pub next_sending_message_key : Exec State (Header × Bytes)
  unfolding sending_key
  next_sending_message_key s = sending_key s.dhs s

  unfoldable pub seal : Bytes → Bytes → Header × Bytes → Result Message
  unfolding message_ad
  seal plaintext ad (header, mk) =
      let keys : MessageKeys = derive_message_keys P mk in
      let nonce : Bytes = take 12 keys.iv in
      bind (aes_gcm_encrypt_with_nonce P keys.enc_key plaintext nonce (message_ad ad header))
        (λ body. ok (record { header = header; ciphertext = nonce ++ body }))

  unfoldable pub encrypt : Bytes → Bytes → Exec State Message
  unfolding next_sending_message_key seal
  encrypt plaintext ad = do keyed ← next_sending_message_key; lift (seal plaintext ad keyed)
