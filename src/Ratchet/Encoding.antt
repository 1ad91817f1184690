-- ===== src/Ratchet/Encoding.antt =====
-- ratchet/header.go: the header as 40 bytes, and sealed.
pub mod RoundTrip
use signal.Common.{
  ◌++◌, [], or_fail, ◌>>=◌, Bytes, Result, ok, err, plain, not, eqb, length, take, drop,
  if◌then◌else◌,
}
use signal.Common.Words.{put_uint32, uint32}
use signal.Crypto.{Primitives}
use signal.Ratchet.{Header}

unfoldable pub serialize : Header → Bytes
serialize h = h.dh ++ (put_uint32 h.pn ++ put_uint32 h.n)

unfoldable pub deserialize : Bytes → Result Header
deserialize bytes =
    if not (eqb (length bytes) 40)
    then err (plain "header: invalid length")
    else ok (record {
      dh = take 32 bytes;
      pn = uint32 (take 4 (drop 32 bytes));
      n = uint32 (take 4 (drop 36 bytes));
    })

module _ (P : Primitives) where
  unfoldable pub encrypt_header : Header → Bytes → Bytes → Result Bytes
  encrypt_header h key nonce =
      if not (eqb (length key) 32)
      then err (plain "header: key must be 32 bytes")
      else if not (eqb (length nonce) 12)
      then err (plain "header: nonce must be 12 bytes")
      else ok (P.gcm_seal key nonce (serialize h) [])

  unfoldable pub decrypt_header : Bytes → Bytes → Bytes → Result Header
  decrypt_header key nonce ciphertext =
      if not (eqb (length key) 32)
      then err (plain "header: key must be 32 bytes")
      else if not (eqb (length nonce) 12)
      then err (plain "header: nonce must be 12 bytes")
      else or_fail (P.gcm_open key nonce ciphertext []) (plain "header: decrypt") >>= deserialize
