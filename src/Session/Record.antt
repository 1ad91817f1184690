-- ===== src/Session/Record.antt =====
-- session/record.go without the serialized form. The sessions of a record are never nil, since NewRecord,
-- Promote and DeserializeRecord set them; a pointer into the archive is its position there.
pub mod Limits
pub mod History
use signal.Common.{
  ℕ, zero, suc, Option, none, some, List, [], ◌∷◌, eqb, ltb, length, take, if◌then◌else◌, ℤ, pos,
  negsuc, is_non_positive,
}
use signal.Session.{Session, clone}

abbrev pub default_max_archived_sessions : ℕ
default_max_archived_sessions = 5

pub record Record (Q : Type 0) : Type 0 where
  pub current : Session Q
  pub archived : List (Session Q)
  pub max_archived : ℕ

limit_of : ℤ → ℕ
limit_of (pos n) = n
limit_of (negsuc n) = 0

-- The archive without the session at the position.
unfoldable pub without {ℓ} : {A : Type ℓ} → Option ℕ → List A → List A
without none xs = xs
without (some i) [] = []
without (some zero) (x ∷ xs) = xs
without (some (suc i)) (x ∷ xs) = x ∷ without (some i) xs

module _ {Q : Type 0} where
  unfoldable pub new_record : Session Q → ℤ → Record Q
  unfolding limit_of clone
  new_record current max_archived = record {
    current = clone current;
    archived = [];
    max_archived =
        if is_non_positive max_archived
        then default_max_archived_sessions
        else limit_of max_archived;
  }

  -- `at` is where next stands in the archive, none where it is another session.
  unfoldable pub promote : Option ℕ → Session Q → Record Q → Record Q
  unfolding without clone
  promote at next r =
      let archived : List (Session Q) = clone r.current ∷ without at r.archived in
      record r {
        archived =
            if ltb r.max_archived (length archived) then take r.max_archived archived else archived;
        current = clone next;
      }
