-- ===== src/Session/Version.antt =====
-- session/version.go. The two versions are the constants of protocol/wire.
use signal.Common.{ℕ, ◌&&◌, ◌||◌, Option, none, some, leb, ltb, length, is_some, if◌then◌else◌}
use signal.X3dh.{Message}
use signal.Session.{Session}

abbrev pub pre_kyber_version : ℕ
pre_kyber_version = 3

abbrev pub kyber_version : ℕ
kyber_version = 4

-- `none` is (0, false)
unfoldable pub normalize_ciphertext_version : ℕ → Option ℕ
normalize_ciphertext_version version =
    if leb pre_kyber_version version && leb version kyber_version then some version else none

with_version : {Q : Type 0} → Option ℕ → Session Q → Session Q
with_version none s = s
with_version (some v) s = record s { version = v }

unfoldable pub set_session_ciphertext_version : {Q : Type 0} → ℕ → Session Q → Session Q
unfolding normalize_ciphertext_version with_version
set_session_ciphertext_version version s = with_version (normalize_ciphertext_version version) s

or_kyber : Option ℕ → ℕ
or_kyber none = kyber_version
or_kyber (some v) = v

unfoldable pub ciphertext_version_for_session : {Q : Type 0} → Session Q → ℕ
unfolding normalize_ciphertext_version or_kyber
ciphertext_version_for_session s = or_kyber (normalize_ciphertext_version s.version)

unfoldable pub ciphertext_version_from_x3dh : Message → ℕ
ciphertext_version_from_x3dh msg =
    if is_some msg.kyber_pre_key_id || ltb 0 (length msg.kyber_ciphertext)
    then kyber_version
    else pre_kyber_version
