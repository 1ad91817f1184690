-- ===== src/SenderKeys/Generate.antt =====
-- newSendingState of senderkeys/builder.go, and the generators of senderkeys/ratchet.go. Each random
-- read is an argument: the bytes that RandomBytes gives, `none` its error.
use signal.Common.{ℕ, ◌^◌, ◌%◌, true, Option, [], Bytes, Result, ok, plain, or_fail, ◌>>=◌}
use signal.Common.Words.{uint32}
use signal.Crypto.{Primitives, generate_key_pair}
use signal.SenderKeys.{State}

abbrev pub sender_key_message_version : ℕ
sender_key_message_version = 3

-- & 0x7fffffff
unfoldable pub generate_sender_key_id : Option Bytes → Result ℕ
generate_sender_key_id entropy = do
  b ← or_fail entropy (plain "generate sender key id")
  ok (uint32 b % 2 ^ 31)

unfoldable pub generate_distribution_id : Option Bytes → Result Bytes
generate_distribution_id entropy = or_fail entropy (plain "generate sender key distribution id")

unfoldable pub generate_sender_key_seed : Option Bytes → Result Bytes
generate_sender_key_seed entropy = or_fail entropy (plain "generate sender chain key")

unfoldable pub new_sending_state :
    Primitives → Option Bytes → Option Bytes → Option Bytes → Option Bytes → Result State
unfolding generate_sender_key_id generate_distribution_id generate_sender_key_seed
new_sending_state P for_id for_distribution for_seed for_signing = do
  key_id ← generate_sender_key_id for_id
  distribution_id ← generate_distribution_id for_distribution
  seed ← generate_sender_key_seed for_seed
  signing ← generate_key_pair P for_signing
  ok (record {
    message_version = sender_key_message_version;
    distribution_id = distribution_id;
    key_id = key_id;
    chain_iteration = 0;
    chain_seed = seed;
    signing_public = signing.public_key;
    signing_private_seed = signing.private_key;
    has_private = true;
    message_keys = [];
  })
