-- ===== src/Keys/Runs.antt =====
-- Keys written and read on small inputs.
use signal.Common.{◌≡◌, refl, ◌>>=◌, some, [], ◌∷◌, ok, arith, bytes_beq, replicate}
use signal.Crypto.{KeyPair}
use signal.Crypto.Toy.{toy, fill, head}
use signal.Keys.{SignedPreKey}
use signal.Keys.Bundle.{PreKeyBundle}
use signal.Keys.Wire.{is_valid_public_key}
use signal.Keys.Serialize.{serialize_pre_key_bundle, deserialize_pre_key_bundle}
use signal.Keys.Serialize.RoundTrip.Bundles.{
  IsWhole, deserialize_pre_key_bundle-serialize_pre_key_bundle,
}

abbrev pair : KeyPair
pair = record { public_key = fill 16; private_key = fill 7 }

abbrev signed : SignedPreKey
signed = record { id = 70000; key_pair = some pair; signature = 9 ∷ 8 ∷ []; timestamp = 1 }

abbrev bundle : PreKeyBundle
bundle = record {
  registration_id = 7;
  device_id = 1;
  pre_key_id = some 2;
  pre_key_public = some (fill 17);
  signed_pre_key_id = 70000;
  signed_pre_key_public = fill 16;
  signed_pre_key_signature = 9 ∷ 8 ∷ [];
  kyber_pre_key_id = some 3;
  kyber_pre_key_public = 8 ∷ replicate 1568 40;
  kyber_pre_key_signature = 7 ∷ [];
  identity_key = record { public_key = fill 14; signing_public = fill 2 };
}

bundle-IsWhole : IsWhole toy bundle
unfolding is_valid_public_key toy head bytes_beq
bundle-IsWhole = record {
  registration_id = omega arith;
  device_id = omega arith;
  one_time = (omega arith, refl);
  signed_id = omega arith;
  signed_public = refl;
  signature = omega arith;
  identity_public = refl;
  identity_signing = refl;
  identity_valid = refl;
  kyber = (omega arith, (refl, (omega arith, (refl, omega arith))));
}

deserialize_pre_key_bundle-serialize_pre_key_bundle_example :
    (serialize_pre_key_bundle bundle >>= deserialize_pre_key_bundle toy) ≡ ok bundle
deserialize_pre_key_bundle-serialize_pre_key_bundle_example =
    deserialize_pre_key_bundle-serialize_pre_key_bundle toy bundle bundle-IsWhole
