-- ===== src/Session/Record/Limits.antt =====
-- The bound on archived sessions (session/record.go).
use signal.Common.{◌≤◌, ◌<◌, length, arith, ℤ, pos, negsuc}
use signal.Session.{Session}
use signal.Session.Record.{Record, new_record}

-- A record keeps at least one archived session, and no more than it may.
pub record IsBounded {Q : Type 0} (r : Record Q) : Type 0 where
  pub room : 0 < r.max_archived
  pub kept : length r.archived ≤ r.max_archived

pub new_record-IsBounded : {Q : Type 0} (s : Session Q) (max : ℤ) → IsBounded (new_record s max)
unfolding new_record
new_record-IsBounded s (pos n) = record { room = ground arith; kept = omega arith }
new_record-IsBounded s (negsuc n) = record { room = omega arith; kept = omega arith }
