-- ===== src/Session/Runs/Records.antt =====
-- Records of sessions on small inputs, written and read.
use signal.Common.{
  panicked, ℕ, ◌≡◌, refl, sym, ap, ◌∙◌, none, some, [], ◌∷◌, Bytes, Result, ok, err, ◌>>=◌, length,
  arith, bytes_beq,
}
use signal.Common.Words.{put_uint32}
use signal.Crypto.Toy.{toy, fill, head}
use signal.Keys.{IdentityKey}
use signal.Keys.Wire.{is_valid_public_key}
use signal.Keys.Serialize.{serialize_identity_key}
use signal.Ratchet.Serialize.{serialize_state, skipped_before, bytes_before}
use signal.Common.Map.Sorted.{sorted}
use signal.Ratchet.Runs.Written.{skipping, skipping-IsStorable}
use signal.Session.{Session}
use signal.Session.Record.{Record}
use signal.Session.Serialize.{
  PqrFormat, block, serialize_session, serialize_record, deserialize_record,
}
use signal.Session.Serialize.RoundTrip.{Fits, IsReadable}
use signal.Session.Serialize.RoundTrip.Records.{
  IsBlock, IsWritableRecord, IsSameRecord, deserialize_record-serialize_record,
  deserialize_record-cut_off, front,
}

-- A state of package spqr that is written as one byte.
abbrev pub format : PqrFormat ℕ
format = record { write = λ q. ok (q ∷ []); read = λ b. ok (some 7) }

abbrev local : IdentityKey
local = record { public_key = fill 12; signing_public = fill 1 }

abbrev remote : IdentityKey
remote = record { public_key = fill 14; signing_public = fill 2 }

abbrev pub session : Session ℕ
session = record {
  ratchet_state = skipping;
  pqr_state = some 7;
  local_identity = local;
  remote_identity = remote;
  associated_data = 5 ∷ 6 ∷ [];
  previous_states = some skipping ∷ none ∷ [];
  version = 4;
}

abbrev pub archive : Record ℕ
archive = record { current = session; archived = session ∷ session ∷ []; max_archived = 5 }

abbrev size : Result Bytes → ℕ
size (ok b) = length b
size (err e) = 0

skipping-length : length (serialize_state skipping) ≡ 414
unfolding serialize_state put_uint32 sorted skipped_before bytes_before bytes_beq
skipping-length = refl

skipping-Fits : Fits skipping
skipping-Fits = record { storable = skipping-IsStorable; small = omega (arith, skipping-length) }

session-size : size (serialize_session format session) ≡ 987
unfolding serialize_session serialize_identity_key serialize_state block put_uint32 sorted
    skipped_before bytes_before bytes_beq
session-size = refl

local-IsReadable : IsReadable toy local
unfolding is_valid_public_key toy head bytes_beq
local-IsReadable = record { public = refl; signing = refl; valid = refl }

remote-IsReadable : IsReadable toy remote
unfolding is_valid_public_key toy head bytes_beq
remote-IsReadable = record { public = refl; signing = refl; valid = refl }

session-IsBlock : IsBlock toy format session
session-IsBlock = record {
  writable = record {
    local = local-IsReadable;
    remote = remote-IsReadable;
    small_ad = omega arith;
    pqr = (7 ∷ [], refl, refl, omega arith, refl);
    state = skipping-Fits;
    previous = (skipping-Fits, (tt, tt));
    few = omega arith;
    version = refl;
  };
  small = λ b e. let l : length b ≡ 987 = sym (ap size e) ∙ session-size in omega (arith, l);
}

pub archive-IsWritableRecord : IsWritableRecord toy format archive
archive-IsWritableRecord = record {
  current = session-IsBlock;
  archived = (session-IsBlock, (session-IsBlock, tt));
  some_room = refl;
  small_max = omega arith;
  room = omega arith;
}

deserialize_record-serialize_record_example :
    (t : Record ℕ) × ((serialize_record format archive >>= deserialize_record toy format) ≡ ok t)
    × IsSameRecord archive t
deserialize_record-serialize_record_example =
    deserialize_record-serialize_record toy format archive archive-IsWritableRecord

abbrev bytes_of : Result Bytes → Bytes
bytes_of (ok b) = b
bytes_of (err e) = []

session-written :
    serialize_session format session ≡ ok (bytes_of (serialize_session format session))
unfolding serialize_session serialize_identity_key
session-written = refl

deserialize_record-cut_off_example :
    deserialize_record toy format
      (front toy format 5 (bytes_of (serialize_session format session)) [])
    ≡ err panicked
deserialize_record-cut_off_example =
    deserialize_record-cut_off toy format session 5 (bytes_of (serialize_session format session))
      session-IsBlock (omega arith) session-written
